-- ===== src/FormatDir/Regions.antt =====
-- What stands where on the disk that format_dir.c writes.
use file_system_project.Prelude.{
  ℕ, ◌+◌, ◌*◌, ◌-◌, ◌≤◌, ◌<◌, ◌≡◌, refl, ◌∙◌, ap, arith, ◌==◌, if◌then◌else◌, false,
}
use file_system_project.Prelude.Int.{pos, minus_one}
use file_system_project.Memory.{Memory, fread, int_at}
use file_system_project.Layout.RoundTrip.{IsInode, IsSuperblock}
use file_system_project.Disk.Geometry.{block_of, inode_of}
use file_system_project.Disk.FreeList.{FreeBlocks, FreeInodes, superblock_of}
use file_system_project.Format.{
  write_boot_block, write_padding, num_inodes, num_blocks_for_inodes, num_data_blocks,
}
use file_system_project.Format.Image.{
  written, block_of-written, inode_of-written, superblock_of-written,
}
use file_system_project.Format.FreeLists.{
  FreeBlocks-linked, FreeInodes-linked, LinkedBlocks, LinkedInodes, numbers, int_at-link,
}
use file_system_project.FormatDir.{
  write_disk, write_super_block, write_inode_region, write_data_region, formatted_superblock,
  formatted_inode, formatted_block,
}

module _ (heap : Memory) (mb : ℕ) (small : mb ≤ 16) (one : 1 ≤ mb) where
  abbrev pub d : ℕ
  d = num_blocks_for_inodes mb

  abbrev pub inodes : ℕ
  inodes = num_inodes mb

  abbrev pub data_blocks : ℕ
  data_blocks = num_data_blocks (mb * 1000000) d

  fits : inodes * 116 ≤ d * 512
  fits = omega arith

  abbrev image : Memory
  image =
      written d inodes data_blocks (formatted_superblock d) (formatted_inode inodes)
        (formatted_block heap data_blocks)

  write_disk-written : write_disk heap mb ≡ image
  unfolding write_disk write_boot_block write_padding write_super_block write_inode_region
      write_data_region
  write_disk-written = refl

  -- Data block j is the formatter's j-th block.
  pub block_of-write_disk :
      (j : ℕ)
      → j < data_blocks
      → block_of d (write_disk heap mb) j ≡ fread (formatted_block heap data_blocks j) 0 512
  block_of-write_disk j h =
      ap (λ m. block_of d m j) write_disk-written
      ∙ block_of-written d inodes data_blocks _ _ _ fits j h

  IsInode-formatted_inode : (i : ℕ) → i < inodes → IsInode (formatted_inode inodes i)
  IsInode-formatted_inode i h = ground arith

  -- Inode i is the formatter's i-th.
  pub inode_of-write_disk :
      (i : ℕ) → i < inodes → inode_of (write_disk heap mb) i ≡ formatted_inode inodes i
  inode_of-write_disk i h =
      ap (λ m. inode_of m i) write_disk-written
      ∙ inode_of-written d inodes data_blocks _ _ _ fits i h (IsInode-formatted_inode i h)

  IsSuperblock-formatted : IsSuperblock (formatted_superblock d)
  IsSuperblock-formatted = omega arith

  superblock_of-write_disk : superblock_of (write_disk heap mb) ≡ formatted_superblock d
  superblock_of-write_disk =
      ap superblock_of write_disk-written
      ∙ superblock_of-written d inodes data_blocks _ _ _ fits IsSuperblock-formatted

  next-formatted_block : LinkedBlocks mb small 3 (write_disk heap mb)
  unfolding formatted_block
  next-formatted_block j h above =
      let link = ap (λ m. int_at m 0) (block_of-write_disk j h) in
      rw (link, not_root, not_user, not_file)
        (int_at-link (if j == data_blocks - 1 then minus_one else pos (j + 1)) (ground arith))
    where
      not_root : (j == 0) ≡ false
      not_root = ground arith

      not_user : (j == 1) ≡ false
      not_user = ground arith

      not_file : (j == 2) ≡ false
      not_file = ground arith

  next-formatted_inode : LinkedInodes mb small 3 (write_disk heap mb)
  next-formatted_inode i h above = ap (λ v. v.next_inode) (inode_of-write_disk i h) ∙ ground arith

  -- On a disk that format_dir.c writes, of 1 to 16 MB, the free list runs through all data blocks from
  -- block 3 on, and the list of free inodes through all inodes from inode 3 on, each once and in order,
  -- from the heads that the disk's superblock names.
  pub Free-write_disk :
      FreeBlocks d
        (write_disk heap mb)
        (superblock_of (write_disk heap mb)).free_block
        (numbers 3 (data_blocks - 3))
      × FreeInodes d
          (write_disk heap mb)
          (superblock_of (write_disk heap mb)).free_inode
          (numbers 3 (inodes - 3))
  Free-write_disk = rw superblock_of-write_disk (
    FreeBlocks-linked mb small 3 (write_disk heap mb) (omega arith) next-formatted_block,
    FreeInodes-linked mb small 3 (write_disk heap mb) (omega arith) next-formatted_inode,
  )
