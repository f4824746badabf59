-- ===== src/Format.antt =====
-- format.c: the image of an empty disk. `FILE *disk` is written from front to back; a size of `mb`
-- megabytes is the whole number that `main` passes, for which the divisions in `float` are exact
-- while the byte counts stay below 2^24.
pub mod Image
pub mod Regions
pub mod FreeLists
pub mod Check
pub mod CheckEach
pub mod Main
pub mod Checked
pub mod Accepted
use file_system_project.Prelude.{
  ℕ, zero, suc, ◌+◌, ◌-◌, ◌*◌, ◌/◌, ◌%◌, List, [], ◌∷◌, ◌==◌, if◌then◌else◌, replicate, get_or,
}
use file_system_project.Prelude.Int.{ℤ, pos, minus_one}
use file_system_project.Memory.{Memory, cleared, fwrite, words, word_of_int}
use file_system_project.Layout.{
  Superblock, Inode, DirectoryEntry, superblock_bytes, inode_bytes, entry_bytes, block_size,
  sizeof_inode, filename_max, dir,
}
use file_system_project.Text.{strcpy}
use file_system_project.SequentialFile.{Output, put, put_each}

-- The text of the boot block is "boot", 128 times.
unfoldable pub boot_text : Memory
boot_text a = get_or (98 ∷ 111 ∷ 111 ∷ 116 ∷ []) (a % 4) 0

unfoldable pub write_boot_block : Output → Output
write_boot_block = put boot_text 512

unfoldable pub write_padding : ℕ → Output → Output
write_padding = put (λ _. b' ')

abbrev pub formatted_superblock : ℕ → Superblock
formatted_superblock data_offset = record {
  size = pos block_size;
  inode_offset = pos 0;
  data_offset = pos data_offset;
  free_inode = pos 1;
  free_block = pos 1;
  root_dir = pos 0;
}

unfoldable pub write_super_block : ℕ → Output → Output
unfolding write_padding
write_super_block data_offset o =
    write_padding 488 (put (superblock_bytes (formatted_superblock data_offset)) 24 o)

-- Inode i of a new disk: the root directory, or a free one that leads to the next.
abbrev pub formatted_inode : ℕ → ℕ → Inode
formatted_inode num_inodes i = record {
  disk_identifier = 0;
  parent_inode_index = if i == 0 then pos 0 else minus_one;
  next_inode = if i == 0 then minus_one else if i == num_inodes - 1 then minus_one else pos (i + 1);
  size = if i == 0 then pos 128 else pos 0;
  uid = pos 0;
  gid = pos 0;
  ctime = pos 0;
  mtime = pos 0;
  atime = pos 0;
  type = if i == 0 then dir else minus_one;
  permission = record { owner = 7; group = 7; others = 7 };
  inode_index = pos i;
  dblocks = replicate 10 (pos 0);
  iblocks = replicate 4 (pos 0);
  i2block = minus_one;
  i3block = minus_one;
  last_block_index = if i == 0 then pos 0 else minus_one;
}

unfoldable pub write_inode_region : ℕ → ℕ → Output → Output
unfolding write_padding
write_inode_region num_inodes num_blocks_inodes o =
    write_padding (num_blocks_inodes * block_size - num_inodes * sizeof_inode)
      (put_each (λ i. inode_bytes (formatted_inode num_inodes i)) sizeof_inode num_inodes 0 o)

abbrev pub dot_entry : DirectoryEntry
dot_entry = record { inode_index = pos 0; filename = b'.' ∷ replicate 59 0 }

abbrev pub dot_dot_entry : DirectoryEntry
dot_dot_entry = record { inode_index = pos 0; filename = b'.' ∷ b'.' ∷ replicate 58 0 }

-- Block j of a new disk: the root directory's entries, or a free block that leads to the next.
unfoldable pub formatted_block : ℕ → ℕ → Memory
formatted_block num_data_blocks j =
    if j == 0
    then fwrite (fwrite cleared 0 (entry_bytes dot_entry) 64) 64 (entry_bytes dot_dot_entry) 64
    else if j == num_data_blocks - 1
    then words (word_of_int minus_one ∷ [])
    else words (word_of_int (pos (j + 1)) ∷ [])

abbrev pub num_data_blocks : ℕ → ℕ → ℕ
num_data_blocks total_bytes num_blocks_for_inodes =
    (total_bytes - 512 - 512 - num_blocks_for_inodes * block_size + 511) / 512

unfoldable pub write_data_region : ℕ → ℕ → Output → Output
write_data_region total_bytes num_blocks_for_inodes =
    let n = num_data_blocks total_bytes num_blocks_for_inodes in
    put_each (formatted_block n) block_size n 0

-- 0.02 MB to an inode, then as many inodes as fill the blocks that they need.
abbrev pub num_blocks_for_inodes : ℕ → ℕ
num_blocks_for_inodes mb = (mb * 50 * sizeof_inode + 511) / block_size

abbrev pub num_inodes : ℕ → ℕ
num_inodes mb = num_blocks_for_inodes mb * block_size / sizeof_inode

abbrev pub empty_output : Output
empty_output = record { image = cleared; position = 0 }

unfoldable pub write_disk : ℕ → Memory
unfolding write_boot_block write_super_block write_inode_region write_data_region
write_disk mb =
    let o = write_super_block (num_blocks_for_inodes mb) (write_boot_block empty_output) in
    let o' = write_inode_region (num_inodes mb) (num_blocks_for_inodes mb) o in
    (write_data_region (mb * 1000000) (num_blocks_for_inodes mb) o').image
