-- ===== src/File/Open.antt =====
-- `f_open` (filesystem.c): a file that is there gets a slot; one that is not is created, unless it
-- was to be read.
use file_system_project.Prelude.{
  ℕ, zero, suc, ◌+◌, ◌/◌, Bool, false, Option, none, some, if◌then◌else◌,
}
use file_system_project.Prelude.Int.{ℤ, pos, negsuc, minus_one, ◌==ℤ◌}
use file_system_project.Memory.{int_at}
use file_system_project.Layout.{Inode, DirectoryEntry, reg}
use file_system_project.Access
use file_system_project.Store.{
  M, pure, ◌>>=◌, ◌>>◌, gets, undefined, table_entry, set_table_entry, set_superblock, assign,
}
use file_system_project.Disk.{
  get_data_block, get_inode, update_single_inode_ondisk, update_superblock_ondisk, if_is_file,
}
use file_system_project.Table.{get_fd_from_inode_value, update_freehead}
use file_system_project.Directory.{f_readdir}
use file_system_project.Directory.Open.{f_opendir, free_opened}
use file_system_project.Directory.Make.{
  named_entry, is_full, append_entry_new_block, append_entry_last_block,
}
use file_system_project.Text.{Text, c_string, text_eq, is_slash, strtok, path_of, split_last}

-- The slot at `table_freehead` takes an inode; the result is its descriptor.
unfoldable pub take_slot : Inode → ℤ → M ℤ
take_slot node access = do
  fd ← gets λ s. s.table_freehead
  table_entry fd
  set_table_entry fd
      (record { free_file = false; file_inode = node; byte_offset = pos 0; access = access })
  update_freehead
  pure fd

-- The loop over the directory: the inode index of the regular file with this name, if any.
unfoldable pub find_file : ℕ → ℤ → Text → M (Option ℤ)
find_file zero parent_fd filename = pure none
find_file (suc rounds) parent_fd filename =
    let rest = find_file rounds parent_fd filename in
    let found = λ (e : DirectoryEntry). if_is_file e.inode_index >>= λ (is_file : Bool).
    if is_file then pure (some e.inode_index) else rest in
    f_readdir parent_fd >>= λ r. elim r [
      | none ↦ pure none
      | some e ↦ if text_eq (c_string e.filename) filename then found e else rest
    ]

-- `for (int i = 0; i < dir_node->size; i += sizeof(directory_entry))`.
unfoldable pub entry_rounds : ℤ → ℕ
entry_rounds (pos n) = (n + 63) / 64
entry_rounds (negsuc n) = 0

-- The inode of a new file takes the head of the free list as its first block.
unfoldable pub start_file : ℤ → ℤ → ℤ → M ℤ
unfolding take_slot
start_file new_inode_index parent_index access = do
  file_inode ← get_inode new_inode_index
  sp ← gets λ s. s.superblock1
  ds ← assign file_inode.dblocks (pos 0) sp.free_block
  let node = record file_inode {
    type = reg;
    parent_inode_index = parent_index;
    size = pos 0;
    next_inode = minus_one;
    dblocks = ds;
  }
  update_single_inode_ondisk node node.inode_index
  fd ← gets λ s. s.table_freehead
  table_entry fd
  set_table_entry fd
      (record { free_file = false; file_inode = node; byte_offset = pos 0; access = access })
  data_block ← get_data_block sp.free_block
  set_superblock (record sp { free_block = int_at data_block 0 })
  sp' ← gets λ s. s.superblock1
  update_superblock_ondisk sp'
  update_freehead
  pure fd

unfoldable pub create_file : ℤ → Text → ℤ → M ℤ
unfolding start_file
create_file dir_fd filename access = do
  named ← named_entry (pos 0) filename
  sp ← gets λ s. s.superblock1
  if sp.free_inode ==ℤ minus_one then pure minus_one else do
    let newfile = record named { inode_index = sp.free_inode }
    new_inode ← get_inode sp.free_inode
    set_superblock (record sp { free_inode = new_inode.next_inode })
    t ← table_entry dir_fd
    dir_data ← get_data_block t.file_inode.last_block_index
    written ←
        (if is_full t.file_inode.size
          then append_entry_new_block dir_fd t newfile
          else (append_entry_last_block dir_fd t newfile dir_data >>= λ node. pure (some node)))
    elim written [
      | none ↦ pure minus_one
      | some node ↦
          if new_inode.inode_index ==ℤ sp.free_inode
          then start_file sp.free_inode node.inode_index access
          else pure minus_one
    ]

unfoldable pub open_in : Text → DirectoryEntry → Text → ℤ → M ℤ
unfolding find_file entry_rounds take_slot create_file
open_in path d filename access = do
  dir_fd ← get_fd_from_inode_value d.inode_index
  t ← table_entry dir_fd
  set_table_entry dir_fd (record t { byte_offset = pos 0 })
  found ← find_file (entry_rounds t.file_inode.size) dir_fd filename
  elim found [
    | some index ↦
        get_inode index >>= λ node. take_slot node access >>= λ fd. free_opened path >> pure fd
    | none ↦
        if access ==ℤ Access.read
        then (free_opened path >> pure minus_one)
        else create_file dir_fd filename access
  ]

-- A path with no token leaves `filename` NULL, which `strcmp` reads.
unfoldable pub f_open : Text → ℤ → M ℤ
unfolding open_in
f_open filepath access = elim (split_last (strtok is_slash filepath)) [
  | none ↦ undefined
  | some (parents, filename) ↦ f_opendir (path_of parents) >>= λ d. elim d [
    | none ↦ pure minus_one
    | some parent_entry ↦ open_in (path_of parents) parent_entry filename access
  ]
]
