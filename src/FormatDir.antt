-- ===== src/FormatDir.antt =====
-- format_dir.c: the image of a test disk with the directory /user and the file /user/test.txt. Where
-- its text is that of format.c (the boot block, the padding, the sizes), the definitions are those of
-- Format. For the entries of /user the code writes and copies 192 bytes of an object of 64 bytes. C
-- leaves open what that does; here the bytes behind the object can be written and read, and `heap` is
-- what they hold before, by the distance from the object's start.
pub mod Entries
pub mod Regions
pub mod Tree
pub mod Opened
use file_system_project.Prelude.{
  ℕ, ◌+◌, ◌-◌, ◌*◌, List, [], ◌∷◌, ◌++◌, ◌==◌, if◌then◌else◌, replicate, get_or,
}
use file_system_project.Prelude.Int.{ℤ, pos, minus_one}
use file_system_project.Memory.{Memory, cleared, fwrite, words, word_of_int, bytes_at}
use file_system_project.Layout.{
  Superblock, Inode, DirectoryEntry, superblock_bytes, inode_bytes, entry_bytes, block_size,
  sizeof_inode, dir, reg,
}
use file_system_project.Text.{Text}
use file_system_project.SequentialFile.{Output, put_each, put}
use file_system_project.Format.{
  write_boot_block, write_padding, num_data_blocks, num_blocks_for_inodes, num_inodes, empty_output,
  dot_entry, dot_dot_entry,
}

-- "user", "test.txt" and "somethingsomething".
abbrev pub user : Text
user = b'u' ∷ b's' ∷ b'e' ∷ b'r' ∷ []

abbrev pub test_txt : Text
test_txt = b't' ∷ b'e' ∷ b's' ∷ b't' ∷ b'.' ∷ b't' ∷ b'x' ∷ b't' ∷ []

abbrev pub something : Text
something = b's' ∷ b'o' ∷ b'm' ∷ b'e' ∷ b't' ∷ b'h' ∷ b'i' ∷ b'n' ∷ b'g' ∷ []

abbrev pub file_data : Text
file_data = something ++ something

abbrev pub formatted_superblock : ℕ → Superblock
formatted_superblock data_offset = record {
  size = pos block_size;
  inode_offset = pos 0;
  data_offset = pos data_offset;
  free_inode = pos 3;
  free_block = pos 3;
  root_dir = pos 0;
}

unfoldable pub write_super_block : ℕ → Output → Output
unfolding write_padding
write_super_block data_offset o =
    write_padding 488 (put (superblock_bytes (formatted_superblock data_offset)) 24 o)

abbrev root_inode : Inode
root_inode = record {
  disk_identifier = 0;
  parent_inode_index = minus_one;
  next_inode = minus_one;
  size = pos 192;
  uid = pos 0;
  gid = pos 0;
  ctime = pos 0;
  mtime = pos 0;
  atime = pos 0;
  type = dir;
  permission = record { owner = 7; group = 7; others = 7 };
  inode_index = pos 0;
  dblocks = pos 0 ∷ replicate 9 minus_one;
  iblocks = replicate 4 (pos 0);
  i2block = minus_one;
  i3block = minus_one;
  last_block_index = pos 0;
}

-- An inode behind the root directory's: /user, the file, or a free one.
abbrev other_inode : ℕ → ℕ → Inode
other_inode num_inodes i = record root_inode {
  parent_inode_index = if i == 2 then pos 1 else minus_one;
  next_inode = if i == num_inodes - 1 then minus_one else pos (i + 1);
  size = if i == 1 then pos 192 else if i == 2 then pos 18 else pos 0;
  type = if i == 1 then dir else reg;
  inode_index = pos i;
  dblocks = (if i == 1 then pos 1 else if i == 2 then pos 2 else pos 0) ∷ replicate 9 (pos 0);
  last_block_index = if i == 1 then pos 1 else if i == 2 then pos 2 else pos 0;
}

abbrev pub formatted_inode : ℕ → ℕ → Inode
formatted_inode num_inodes i = if i == 0 then root_inode else other_inode num_inodes i

unfoldable pub write_inode_region : ℕ → ℕ → Output → Output
unfolding write_padding
write_inode_region num_inodes num_blocks_inodes o =
    write_padding (num_blocks_inodes * block_size - num_inodes * sizeof_inode)
      (put_each (λ i. inode_bytes (formatted_inode num_inodes i)) sizeof_inode num_inodes 0 o)

-- Three entries in an array.
unfoldable pub directories : Memory → DirectoryEntry → DirectoryEntry → DirectoryEntry → Memory
directories m e0 e1 e2 =
    fwrite (fwrite (fwrite m 0 (entry_bytes e0) 64) 64 (entry_bytes e1) 64) 128 (entry_bytes e2) 64

abbrev pub user_entry : DirectoryEntry
user_entry = record { inode_index = pos 1; filename = user ++ replicate 56 0 }

-- The entries behind the object: the names end, and then comes what was there.
abbrev pub dot_dot_behind : Memory → DirectoryEntry
dot_dot_behind heap = record {
  inode_index = pos 0;
  filename = b'.' ∷ b'.' ∷ 0 ∷ bytes_at heap 71 57;
}

abbrev pub test_txt_behind : Memory → DirectoryEntry
test_txt_behind heap = record {
  inode_index = pos 2;
  filename = test_txt ++ 0 ∷ bytes_at heap 141 51;
}

-- A block as it is before the entries or the data are copied to its start.
abbrev linked_block : ℕ → ℕ → Memory
linked_block num_data_blocks j =
    words (word_of_int (if j == num_data_blocks - 1 then minus_one else pos (j + 1)) ∷ [])

unfoldable pub formatted_block : Memory → ℕ → ℕ → Memory
formatted_block heap num_data_blocks j =
    if j == 0
    then fwrite cleared 0 (directories cleared dot_entry dot_dot_entry user_entry) 192
    else if j == 1
    then fwrite (linked_block num_data_blocks j) 0
        (directories heap dot_entry (dot_dot_behind heap) (test_txt_behind heap)) 192
    else if j == 2
    then fwrite (fwrite (linked_block num_data_blocks j) 0 (λ a. get_or file_data a 0) 19) 18
        cleared 1
    else linked_block num_data_blocks j

unfoldable pub write_data_region : Memory → ℕ → ℕ → Output → Output
write_data_region heap total_bytes num_blocks_for_inodes =
    let n = num_data_blocks total_bytes num_blocks_for_inodes in
    put_each (formatted_block heap n) block_size n 0

unfoldable pub write_disk : Memory → ℕ → Memory
unfolding write_boot_block write_super_block write_inode_region write_data_region
write_disk heap mb =
    let o = write_super_block (num_blocks_for_inodes mb) (write_boot_block empty_output) in
    let o' = write_inode_region (num_inodes mb) (num_blocks_for_inodes mb) o in
    (write_data_region heap (mb * 1000000) (num_blocks_for_inodes mb) o').image
