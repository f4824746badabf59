-- ===== src/Table.antt =====
-- The open-file table and its scans (filesystem.c): `file_table` is a list of FILETABLESIZE entries,
-- and a loop over the array is a recursion on the list that counts the index.
pub mod Scan
pub mod Close
use file_system_project.Prelude.{
  ℕ, zero, suc, Bool, true, false, ◌&&◌, ◌||◌, not, Option, none, some, List, [], ◌∷◌, ltb,
  if◌then◌else◌, replicate,
}
use file_system_project.Prelude.Int.{ℤ, pos, negsuc, minus_one, ◌+ℤ◌, ltb_ℤ, leb_ℤ, ◌==ℤ◌}
use file_system_project.Access
use file_system_project.Whence
use file_system_project.Layout.{Inode, DirectoryEntry, PermissionValue, file_table_size, dir}
use file_system_project.Store.{
  FileTableEntry, FileSystem, M, pure, ◌>>=◌, ◌>>◌, gets, table_entry, set_table_entry,
  set_freehead, free_root, undefined,
}

abbrev pub zero_inode : Inode
zero_inode = record {
  disk_identifier = 0;
  parent_inode_index = pos 0;
  next_inode = pos 0;
  size = pos 0;
  uid = pos 0;
  gid = pos 0;
  ctime = pos 0;
  mtime = pos 0;
  atime = pos 0;
  type = pos 0;
  permission = record { owner = 0; group = 0; others = 0 };
  inode_index = pos 0;
  dblocks = replicate 10 (pos 0);
  iblocks = replicate 4 (pos 0);
  i2block = pos 0;
  i3block = pos 0;
  last_block_index = pos 0;
}

-- The table as `setup` leaves it.
unfoldable pub setup_file_table : List FileTableEntry
setup_file_table =
    replicate file_table_size
      (record { free_file = true; file_inode = zero_inode; byte_offset = pos 0; access = pos 0 })

-- The index of the first entry, from index i on, that passes a test, or -1.
first_entry_from : (FileTableEntry → Bool) → ℕ → List FileTableEntry → ℤ
first_entry_from test i [] = minus_one
first_entry_from test i (e ∷ es) =
    let rest = first_entry_from test (suc i) es in if test e then pos i else rest

unfoldable pub first_entry : (FileTableEntry → Bool) → List FileTableEntry → ℤ
unfolding first_entry_from
first_entry test = first_entry_from test 0

abbrev pub is_free : FileTableEntry → Bool
is_free e = e.free_file

abbrev pub is_open_at : ℤ → FileTableEntry → Bool
is_open_at index e = not e.free_file && (e.file_inode.inode_index ==ℤ index)

unfoldable pub find_next_freehead : M ℤ
find_next_freehead = gets λ s. first_entry is_free s.file_table

unfoldable pub already_in_table : Inode → M ℤ
already_in_table node = gets λ s. first_entry (is_open_at node.inode_index) s.file_table

unfoldable pub get_fd_from_inode_value : ℤ → M ℤ
get_fd_from_inode_value inode_index = gets λ s. first_entry (is_open_at inode_index) s.file_table

desired_from : ℤ → ℤ → ℕ → List FileTableEntry → ℤ
desired_from location_sought num_locations i [] = minus_one
desired_from location_sought num_locations i (e ∷ es) =
    let skip = desired_from location_sought (num_locations +ℤ pos 1) (suc i) es in
    let next = desired_from location_sought num_locations (suc i) es in
    if e.free_file then (if ltb_ℤ num_locations location_sought then skip else pos i) else next

unfoldable pub desired_free_location_in_table : ℤ → M ℤ
unfolding desired_from
desired_free_location_in_table location_sought =
    gets λ s. desired_from location_sought (pos 1) 0 s.file_table

-- The array is read before the index is tested.
unfoldable pub get_table_entry : ℤ → M (Option FileTableEntry)
get_table_entry index = do
  e ← table_entry index
  pure (
      if e.free_file || ltb_ℤ index (pos 0) || ltb_ℤ (pos file_table_size) index
      then none
      else some e)

unfoldable pub get_table_freehead : M ℤ
get_table_freehead = gets λ s. s.table_freehead

-- This scan has no `break`: it finds the last entry.
last_open_from : ℤ → ℤ → ℕ → List FileTableEntry → ℤ
last_open_from index found i [] = found
last_open_from index found i (e ∷ es) =
    last_open_from index (if is_open_at index e then pos i else found) (suc i) es

-- The table index of the directory's inode; -1 where the C function returns NULL.
unfoldable pub get_inode_from_file_table_from_directory_entry : DirectoryEntry → M ℤ
unfolding last_open_from
get_inode_from_file_table_from_directory_entry entry =
    gets λ s. last_open_from entry.inode_index minus_one 0 s.file_table

unfoldable pub update_freehead : M (Unit {0})
update_freehead = do h ← find_next_freehead; set_freehead h

unfoldable pub f_close : ℤ → M Bool
f_close file_descriptor =
    if leb_ℤ (pos file_table_size) file_descriptor || ltb_ℤ file_descriptor (pos 0)
    then pure false
    else do
      e ← table_entry file_descriptor
      set_table_entry file_descriptor (record e { free_file = true })
      update_freehead
      pure true

unfoldable pub f_rewind : ℤ → M Bool
f_rewind file_descriptor = if leb_ℤ (pos file_table_size) file_descriptor then pure false else do
  e ← table_entry file_descriptor
  set_table_entry file_descriptor (record e { byte_offset = pos 0 })
  pure true

unfoldable pub f_seek : ℤ → ℤ → ℤ → M Bool
f_seek file_descriptor offset whence =
    if not (leb_ℤ (pos 0) file_descriptor && ltb_ℤ file_descriptor (pos file_table_size))
    then pure false
    else if ltb_ℤ offset (pos 0)
    then pure false
    else do
      e ← table_entry file_descriptor
      if whence ==ℤ Whence.seek_set
          then (if leb_ℤ offset e.file_inode.size
              then set_table_entry file_descriptor (record e { byte_offset = offset }) >> pure true
              else pure false)
          else if whence ==ℤ Whence.seek_cur
          then (if ltb_ℤ (pos 2147483647) (e.byte_offset +ℤ offset)
              then undefined
              else if leb_ℤ (e.byte_offset +ℤ offset) e.file_inode.size
              then set_table_entry file_descriptor
                  (record e { byte_offset = e.byte_offset +ℤ offset })
                >> pure true
              else pure false)
          else pure (whence ==ℤ Whence.seek_end)

-- `f_closedir`'s scan does not look at `free_file`.
unfoldable close_index : ℤ → M Bool
close_index inode_index = do
  fd ← gets λ s. first_entry (λ e. e.file_inode.inode_index ==ℤ inode_index) s.file_table
  if fd ==ℤ minus_one then pure false else f_close fd

-- What a `directory_entry *` is: NULL, `root_dir_entry`, or a live object of the caller's own.
pub data DirectoryPointer : Type 0 where
  null : DirectoryPointer
  root_entry : DirectoryPointer
  own : DirectoryEntry → DirectoryPointer

-- The entry is freed.
unfoldable pub f_closedir : DirectoryPointer → M Bool
unfolding close_index
f_closedir null = pure false
f_closedir root_entry = do e ← gets λ s. s.root_dir_entry; free_root; close_index e.inode_index
f_closedir (own entry) = close_index entry.inode_index

unfoldable pub addto_file_table : Inode → ℤ → M ℤ
addto_file_table node access = do
  fd ← already_in_table node
  if not (fd ==ℤ minus_one) then pure fd else do
    free ← find_next_freehead
    if free ==ℤ minus_one then pure free else do
      set_table_entry free (record {
        free_file = false;
        file_inode = node;
        byte_offset = pos 0;
        access = if node.type ==ℤ dir then Access.append else access;
      })
      pure free

unfoldable pub remove_from_file_table : Inode → M ℤ
remove_from_file_table node = do
  fd ← already_in_table node
  if fd ==ℤ minus_one then pure fd else do
    e ← table_entry fd
    set_table_entry fd (record e { free_file = true })
    set_freehead fd
    pure fd

-- What `f_stat` copies out of an inode.
pub record FileStat : Type 0 where
  pub size : ℤ
  pub uid : ℤ
  pub gid : ℤ
  pub ctime : ℤ
  pub mtime : ℤ
  pub atime : ℤ
  pub type : ℤ
  pub permission : PermissionValue
  pub inode_index : ℤ

unfoldable pub f_stat : Inode → FileStat
f_stat n = record {
  size = n.size;
  uid = n.uid;
  gid = n.gid;
  ctime = n.ctime;
  mtime = n.mtime;
  atime = n.atime;
  type = n.type;
  permission = n.permission;
  inode_index = n.inode_index;
}
