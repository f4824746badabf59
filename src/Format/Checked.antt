-- ===== src/Format/Checked.antt =====
-- The formatter's checks pass on what the formatter writes.
use file_system_project.Prelude.{ℕ, zero, suc, ◌*◌, ◌≤◌, ◌<◌, ◌≡◌, refl, ◌∙◌, true, arith}
use file_system_project.Memory.{
  Memory, fread, fwrite, int_at, word_at, int_of_word, word_of_int, byte_of, bytes_at,
}
use file_system_project.Layout.{superblock_at, entry_at, entry_bytes}
use file_system_project.Text.{text_eq, c_string}
use file_system_project.Disk.Geometry.{block_of, block_address, inode_of, inode_address}
use file_system_project.Disk.FreeList.{superblock_of}
use file_system_project.Format.{
  write_disk, formatted_inode, formatted_block, boot_text, formatted_superblock,
}
use file_system_project.Format.FreeLists.{next-formatted_block}
use file_system_project.Format.Regions.{
  d, inodes, data_blocks, block_of-write_disk, inode_of-write_disk, superblock_of-write_disk,
  boot_of-write_disk,
}
use file_system_project.Format.CheckEach.{check_each_lem}
use file_system_project.Format.Check.{
  boot_literal, check_boot_block, check_super_block, check_inode, check_inode_region, check_block,
  check_data_region, test_disk,
}

pub fread-superblock : (m : Memory) → superblock_at (fread m 512 512) ≡ superblock_of m
unfolding superblock_at int_at word_at fread
fread-superblock m = refl

boot_text-literal : text_eq (c_string (bytes_at (fread boot_text 0 512) 0 513)) boot_literal ≡ true
unfolding text_eq c_string bytes_at fread boot_text
boot_text-literal = refl

check_inode-formatted : (n i : ℕ) → check_inode n i (formatted_inode n i) ≡ true
unfolding check_inode
check_inode-formatted n i = ground arith

check_root_block-formatted : (n : ℕ) → check_block n 0 (fread (formatted_block n 0) 0 512) ≡ true
unfolding check_block formatted_block fread fwrite entry_at entry_bytes int_at word_at int_of_word
    word_of_int byte_of bytes_at text_eq c_string
check_root_block-formatted n = refl

module _ (mb : ℕ) (small : mb ≤ 16) where
  check_boot_block-write_disk : check_boot_block (write_disk mb) ≡ true
  unfolding check_boot_block
  check_boot_block-write_disk = rw (boot_of-write_disk mb small) boot_text-literal

  super : superblock_at (fread (write_disk mb) 512 512) ≡ formatted_superblock (d mb small)
  super = fread-superblock (write_disk mb) ∙ superblock_of-write_disk mb small

  check_super_block-write_disk : check_super_block (d mb small) (write_disk mb) ≡ true
  unfolding check_super_block
  check_super_block-write_disk = rw super (ground arith)

  check_inode_region-write_disk : check_inode_region (write_disk mb) ≡ true
  unfolding check_inode_region inode_of inode_address
  check_inode_region-write_disk = rw super (
      check_each_lem _ (inodes mb small) 0 λ i _ h.
        rw (inode_of-write_disk mb small i (omega arith))
          (check_inode-formatted (inodes mb small) i))

  check_block-write_disk :
      (j : ℕ)
      → j < data_blocks mb small
      → check_block (data_blocks mb small) j (block_of (d mb small) (write_disk mb) j) ≡ true
  unfolding check_block
  check_block-write_disk zero h =
      rw (block_of-write_disk mb small 0 h) (check_root_block-formatted (data_blocks mb small))
  check_block-write_disk (suc j) h = ground (arith, next-formatted_block mb small (suc j) h)

  check_data_region-write_disk :
      check_data_region (mb * 1000000) (d mb small) (d mb small) (write_disk mb) ≡ true
  unfolding check_data_region block_of block_address
  check_data_region-write_disk =
      check_each_lem _ (data_blocks mb small) 0 λ j _ h. check_block-write_disk j (omega arith)

  -- Every assertion of `test_disk` holds on the disk that `write_disk` writes for the same size, of
  -- at most 16 MB.
  pub test_disk-write_disk : test_disk mb (write_disk mb) ≡ true
  unfolding test_disk
  test_disk-write_disk = ground (
    arith, check_boot_block-write_disk, check_super_block-write_disk, check_inode_region-write_disk,
    check_data_region-write_disk,
  )
