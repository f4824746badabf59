-- ===== src/Format/Regions.antt =====
-- What stands where on a formatted disk.
use file_system_project.Prelude.{ℕ, ◌*◌, ◌≤◌, ◌<◌, ◌≡◌, refl, ◌∙◌, ap, arith}
use file_system_project.Memory.{Memory, fread}
use file_system_project.Layout.RoundTrip.{IsInode, IsSuperblock}
use file_system_project.Disk.Geometry.{block_of, inode_of}
use file_system_project.Disk.FreeList.{superblock_of}
use file_system_project.Format.{
  write_disk, boot_text, write_boot_block, write_padding, write_super_block, write_inode_region,
  write_data_region, formatted_superblock, formatted_inode, formatted_block, num_inodes,
  num_blocks_for_inodes, num_data_blocks,
}
use file_system_project.Format.Image.{
  written, block_of-written, inode_of-written, boot_of-written, superblock_of-written,
}

module _ (mb : ℕ) (small : mb ≤ 16) where
  abbrev pub d : ℕ
  d = num_blocks_for_inodes mb

  abbrev pub inodes : ℕ
  inodes = num_inodes mb

  abbrev pub data_blocks : ℕ
  data_blocks = num_data_blocks (mb * 1000000) d

  fits : inodes * 116 ≤ d * 512
  fits = omega arith

  abbrev image : Memory
  image =
      written d inodes data_blocks (formatted_superblock d) (formatted_inode inodes)
        (formatted_block data_blocks)

  write_disk-written : write_disk mb ≡ image
  unfolding write_disk write_boot_block write_padding write_super_block write_inode_region
      write_data_region
  write_disk-written = refl

  -- Data block j of a disk that format.c writes, of at most 16 MB, is the formatter's j-th block.
  pub block_of-write_disk :
      (j : ℕ)
      → j < data_blocks
      → block_of d (write_disk mb) j ≡ fread (formatted_block data_blocks j) 0 512
  block_of-write_disk j h =
      ap (λ m. block_of d m j) write_disk-written
      ∙ block_of-written d inodes data_blocks _ _ _ fits j h

  IsInode-formatted_inode : (i : ℕ) → i < inodes → IsInode (formatted_inode inodes i)
  IsInode-formatted_inode i h = ground arith

  -- Inode i of a disk that format.c writes, of at most 16 MB, is read back as the formatter's i-th
  -- inode.
  pub inode_of-write_disk :
      (i : ℕ) → i < inodes → inode_of (write_disk mb) i ≡ formatted_inode inodes i
  inode_of-write_disk i h =
      ap (λ m. inode_of m i) write_disk-written
      ∙ inode_of-written d inodes data_blocks _ _ _ fits i h (IsInode-formatted_inode i h)

  -- The boot block is the formatter's text.
  pub boot_of-write_disk : fread (write_disk mb) 0 512 ≡ fread boot_text 0 512
  boot_of-write_disk =
      ap (λ m. fread m 0 512) write_disk-written ∙ boot_of-written d inodes data_blocks _ _ _ fits

  IsSuperblock-formatted : IsSuperblock (formatted_superblock d)
  IsSuperblock-formatted = omega arith

  -- The superblock that a mount reads from a disk that format.c writes, of at most 16 MB, is the
  -- formatter's.
  pub superblock_of-write_disk : superblock_of (write_disk mb) ≡ formatted_superblock d
  superblock_of-write_disk =
      ap superblock_of write_disk-written
      ∙ superblock_of-written d inodes data_blocks _ _ _ fits IsSuperblock-formatted
