-- ===== src/Disk/Geometry.antt =====
-- A mounted disk with 512-byte blocks, `d` blocks of inodes and no more than a million blocks: where
-- its inodes and data blocks lie, and that each access goes there.
use file_system_project.Prelude.{ℕ, ◌+◌, ◌*◌, ◌≤◌, ◌≡◌, some, arith}
use file_system_project.Prelude.Int.{pos}
use file_system_project.Memory.{Memory, fread, fwrite}
use file_system_project.Layout.{Inode, inode_at, inode_bytes}
use file_system_project.Store.{FileSystem}
use file_system_project.Disk.{
  get_data_block, write_data_to_block, get_inode, update_single_inode_ondisk,
}

pub record IsMounted (d : ℕ) (s : FileSystem) : Type 0 where
  pub size : s.superblock1.size ≡ pos 512
  pub inode_offset : s.superblock1.inode_offset ≡ pos 0
  pub data_offset : s.superblock1.data_offset ≡ pos d
  pub small : d ≤ 1000000

abbrev pub IsBlock : ℕ → Type 0
IsBlock b = b ≤ 1000000

-- Inode i lies wholly in the inode region.
abbrev pub InRegion : ℕ → ℕ → Type 0
InRegion d i = 116 * i + 116 ≤ 512 * d

unfoldable pub block_address : ℕ → ℕ → ℕ
block_address d b = 1024 + d * 512 + b * 512

unfoldable pub inode_address : ℕ → ℕ
inode_address i = 1024 + i * 116

unfoldable pub block_of : ℕ → Memory → ℕ → Memory
block_of d m b = fread m (block_address d b) 512

unfoldable pub inode_of : Memory → ℕ → Inode
inode_of m i = inode_at (fread m (inode_address i) 116)

abbrev pub with_image : FileSystem → Memory → FileSystem
with_image s m = record s { disk_image = m }

pub IsMounted-with_image :
    {d : ℕ} {s : FileSystem} (m : Memory) → IsMounted d s → IsMounted d (with_image s m)
IsMounted-with_image m v = record {
  size = v.size;
  inode_offset = v.inode_offset;
  data_offset = v.data_offset;
  small = v.small;
}

module _ {d : ℕ} {s : FileSystem} (v : IsMounted d s) where
  pub get_data_block-ok :
      (b : ℕ) → IsBlock b → get_data_block (pos b) s ≡ some (block_of d s.disk_image b, s)
  unfolding get_data_block block_of block_address
  get_data_block-ok b h = ground arith

  pub write_data_to_block-ok :
      (b : ℕ) (content : Memory) (n : ℕ)
      → IsBlock b
      → n ≤ 512
      → write_data_to_block (pos b) content (pos n) s
        ≡ some (pos 0, with_image s (fwrite s.disk_image (block_address d b) content n))
  unfolding write_data_to_block block_address
  write_data_to_block-ok b content n h le = ground arith

  pub get_inode-ok :
      (i : ℕ) → InRegion d i → get_inode (pos i) s ≡ some (inode_of s.disk_image i, s)
  unfolding get_inode inode_of inode_address
  get_inode-ok i h = ground arith

  pub update_single_inode_ondisk-ok :
      (node : Inode) (i : ℕ)
      → InRegion d i
      → update_single_inode_ondisk node (pos i) s
        ≡ some (pos 8, with_image s (fwrite s.disk_image (inode_address i) (inode_bytes node) 116))
  unfolding update_single_inode_ondisk inode_address
  update_single_inode_ondisk-ok node i h = ground arith
