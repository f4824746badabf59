-- ===== src/Disk/Blocks.antt =====
-- Blocks and inodes are cells: a write changes one of them and no other (filesystem.c).
use file_system_project.Prelude.{
  ℕ, ◌+◌, ◌*◌, ◌≤◌, ◌≡◌, ◌≢◌, ◌∙◌, ap, some, arith, ◌==◌, if◌then◌else◌,
}
use file_system_project.Prelude.Int.{pos}
use file_system_project.Memory.{Memory, fwrite}
use file_system_project.Memory.Transfer.{
  fread-fwrite_self, fread-fwrite_disjoint, fread-fwrite_overlay,
}
use file_system_project.Layout.{Inode, inode_at, inode_bytes}
use file_system_project.Layout.RoundTrip.{IsInode, inode_at-inode_bytes, fread-inode_bytes}
use file_system_project.Store.{FileSystem, ◌>>◌}
use file_system_project.Disk.{
  get_data_block, write_data_to_block, get_inode, update_single_inode_ondisk,
}
use file_system_project.Disk.Geometry.{
  IsMounted, IsMounted-with_image, IsBlock, InRegion, block_address, inode_address, block_of,
  inode_of, with_image, get_data_block-ok, write_data_to_block-ok, get_inode-ok,
  update_single_inode_ondisk-ok,
}

pub block_of-fwrite_self :
    (d : ℕ) (m content : Memory) (b n : ℕ)
    → n ≤ 512
    → block_of d (fwrite m (block_address d b) content n) b ≡ fwrite (block_of d m b) 0 content n
unfolding block_of
block_of-fwrite_self d m content b n h = fread-fwrite_overlay m content (block_address d b) n 512 h

pub block_of-fwrite_ne :
    (d : ℕ) (m content : Memory) (b c n : ℕ)
    → n ≤ 512
    → b ≢ c
    → block_of d (fwrite m (block_address d b) content n) c ≡ block_of d m c
unfolding block_of block_address
block_of-fwrite_ne d m content b c n h ne =
    fread-fwrite_disjoint m content (1024 + d * 512 + b * 512) n (1024 + d * 512 + c * 512) 512
      (grind arith)

-- The inode region ends where the data region begins.
pub inode_of-fwrite_block :
    (d : ℕ) (m content : Memory) (b i n : ℕ)
    → InRegion d i
    → inode_of (fwrite m (block_address d b) content n) i ≡ inode_of m i
unfolding inode_of block_address inode_address
inode_of-fwrite_block d m content b i n h = ap inode_at (
    fread-fwrite_disjoint m content (1024 + d * 512 + b * 512) n (1024 + i * 116) 116 (omega arith))

pub block_of-fwrite_inode :
    (d : ℕ) (m content : Memory) (i b : ℕ)
    → InRegion d i
    → block_of d (fwrite m (inode_address i) content 116) b ≡ block_of d m b
unfolding block_of block_address inode_address
block_of-fwrite_inode d m content i b h =
    fread-fwrite_disjoint m content (1024 + i * 116) 116 (1024 + d * 512 + b * 512) 512
      (omega arith)

pub inode_of-fwrite_self :
    (m : Memory) (node : Inode) (i : ℕ)
    → IsInode node
    → inode_of (fwrite m (inode_address i) (inode_bytes node) 116) i ≡ node
unfolding inode_of
inode_of-fwrite_self m node i v =
    ap inode_at
      (fread-fwrite_self m (inode_bytes node) (inode_address i) 116 ∙ fread-inode_bytes node v)
    ∙ inode_at-inode_bytes node v

pub inode_of-fwrite_ne :
    (m content : Memory) (i j : ℕ)
    → i ≢ j
    → inode_of (fwrite m (inode_address i) content 116) j ≡ inode_of m j
unfolding inode_of inode_address
inode_of-fwrite_ne m content i j ne =
    ap inode_at
      (fread-fwrite_disjoint m content (1024 + i * 116) 116 (1024 + j * 116) 116 (grind arith))

-- The superblock's region lies before both.
pub block_of-fwrite_superblock :
    (d : ℕ) (m content : Memory) (a b n : ℕ)
    → a + n ≤ 1024
    → block_of d (fwrite m a content n) b ≡ block_of d m b
unfolding block_of block_address
block_of-fwrite_superblock d m content a b n h =
    fread-fwrite_disjoint m content a n (1024 + d * 512 + b * 512) 512 (omega arith)

pub inode_of-fwrite_superblock :
    (m content : Memory) (a i n : ℕ)
    → a + n ≤ 1024
    → inode_of (fwrite m a content n) i ≡ inode_of m i
unfolding inode_of inode_address
inode_of-fwrite_superblock m content a i n h =
    ap inode_at (fread-fwrite_disjoint m content a n (1024 + i * 116) 116 (omega arith))

module _ {d : ℕ} {s : FileSystem} (v : IsMounted d s) where
  -- On a mounted disk, after `write_data_to_block` of n ≤ 512 bytes to block b, `get_data_block`
  -- gives block b with its first n bytes replaced, and any other block as it was.
  pub get_data_block-write_data_to_block :
      (b c n : ℕ) (content : Memory)
      → IsBlock b
      → IsBlock c
      → n ≤ 512
      → (write_data_to_block (pos b) content (pos n) >> get_data_block (pos c)) s
        ≡ some (
          if b == c
              then fwrite (block_of d s.disk_image b) 0 content n
              else block_of d s.disk_image c,
          with_image s (fwrite s.disk_image (block_address d b) content n),
        )
  get_data_block-write_data_to_block b c n content hb hc hn =
      let m = fwrite s.disk_image (block_address d b) content n in
      ground (
        arith,
        write_data_to_block-ok v b content n hb hn,
        get_data_block-ok (IsMounted-with_image m v) c hc,
        block_of-fwrite_self d s.disk_image content b n hn,
        block_of-fwrite_ne d s.disk_image content b c n hn,
      )

  -- On a mounted disk, after `update_single_inode_ondisk` of a node at index i, `get_inode` gives
  -- that node back at i, and at any other index of the inode region the inode that was there.
  pub get_inode-update_single_inode_ondisk :
      (node : Inode) (i j : ℕ)
      → IsInode node
      → InRegion d i
      → InRegion d j
      → (update_single_inode_ondisk node (pos i) >> get_inode (pos j)) s
        ≡ some (
          if i == j then node else inode_of s.disk_image j,
          with_image s (fwrite s.disk_image (inode_address i) (inode_bytes node) 116),
        )
  get_inode-update_single_inode_ondisk node i j w hi hj =
      let m = fwrite s.disk_image (inode_address i) (inode_bytes node) 116 in
      ground (
        arith,
        update_single_inode_ondisk-ok v node i hi,
        get_inode-ok (IsMounted-with_image m v) j hj,
        inode_of-fwrite_self s.disk_image node i w,
        inode_of-fwrite_ne s.disk_image (inode_bytes node) i j,
      )
