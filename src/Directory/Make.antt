-- ===== src/Directory/Make.antt =====
-- `f_mkdir` (filesystem.c): an entry in the parent, then an inode and a block for the directory.
use file_system_project.Prelude.{
  Bool, true, false, Option, none, some, [], ◌∷◌, if◌then◌else◌, replicate,
}
use file_system_project.Prelude.Int.{
  ℤ, pos, minus_one, ◌+ℤ◌, ◌-ℤ◌, ◌*ℤ◌, div_ℤ, mod_ℤ, leb_ℤ, ◌==ℤ◌,
}
use file_system_project.Memory.{Memory, fwrite, int_at}
use file_system_project.Layout.{
  Inode, DirectoryEntry, entry_bytes, block_size, n_dblocks, filename_max, dir,
}
use file_system_project.Store.{
  FileTableEntry, M, pure, ◌>>=◌, ◌>>◌, gets, undefined, or_undefined, table_entry, set_table_entry,
  set_superblock, assign,
}
use file_system_project.Disk.{
  get_data_block, write_data_to_block, get_inode, update_single_inode_ondisk,
  update_superblock_ondisk,
}
use file_system_project.Table.{get_fd_from_inode_value}
use file_system_project.BlockMap.{find_next_datablock}
use file_system_project.Directory.{nat}
use file_system_project.Directory.Open.{f_opendir}
use file_system_project.Text.{Text, strcpy, is_slash, strtok, path_of, split_last}

-- A cleared entry with a name copied in.
unfoldable pub named_entry : ℤ → Text → M DirectoryEntry
named_entry index name = do
  array ← or_undefined (strcpy (replicate filename_max 0) name)
  pure (record { inode_index = index; filename = array })

abbrev pub is_full : ℤ → Bool
is_full size = size ==ℤ pos block_size *ℤ div_ℤ size block_size

-- The parent's last block is full, or it has none: the entry goes to a new block. The result is the
-- parent's inode; `none` where the block would not be a direct one.
unfoldable pub append_entry_new_block : ℤ → FileTableEntry → DirectoryEntry → M (Option Inode)
append_entry_new_block dir_fd t newf = do
  let node = t.file_inode
  let total_block = div_ℤ node.size block_size +ℤ pos 1
  (b, node') ← find_next_datablock node total_block node.size node.size
  write_data_to_block b (entry_bytes newf) (pos 64)
  let grown = record node' { size = node'.size +ℤ pos 64; last_block_index = b }
  if leb_ℤ total_block (pos n_dblocks)
      then (do
        ds ← assign grown.dblocks (total_block -ℤ pos 1) b
        let full = record grown { dblocks = ds }
        set_table_entry dir_fd (record t { file_inode = full })
        update_single_inode_ondisk full full.inode_index
        pure (some full))
      else (do set_table_entry dir_fd (record t { file_inode = grown }); pure none)

-- The entry goes behind the others in the parent's last block.
unfoldable pub append_entry_last_block : ℤ → FileTableEntry → DirectoryEntry → Memory → M Inode
append_entry_last_block dir_fd t newf dir_data = do
  let node = t.file_inode
  block_offset ← nat (mod_ℤ node.size block_size)
  write_data_to_block node.last_block_index (fwrite dir_data block_offset (entry_bytes newf) 64)
      (pos block_size)
  let grown = record node { size = node.size +ℤ pos 64 }
  set_table_entry dir_fd (record t { file_inode = grown })
  update_single_inode_ondisk grown grown.inode_index
  pure grown

-- The new directory's inode and first block, which is the head of the free list. In the branch for
-- a new parent block the inode keeps its old `last_block_index`.
unfoldable pub start_directory :
    Bool → Inode → ℤ → ℤ → DirectoryEntry → DirectoryEntry → M (Unit {0})
start_directory set_last new_inode new_inode_index parent_index current_d parent = do
  sp ← gets λ s. s.superblock1
  ds ← assign new_inode.dblocks (pos 0) sp.free_block
  data_block ← get_data_block sp.free_block
  let entries = fwrite (fwrite data_block 0 (entry_bytes current_d) 64) 64 (entry_bytes parent) 64
  let node = record new_inode {
    size = pos 128;
    type = dir;
    parent_inode_index = parent_index;
    dblocks = ds;
    last_block_index = if set_last then sp.free_block else new_inode.last_block_index;
  }
  set_superblock (record sp { free_block = int_at data_block 0 })
  write_data_to_block sp.free_block entries (pos block_size)
  sp' ← gets λ s. s.superblock1
  set_superblock (if set_last then record sp' { free_inode = new_inode.next_inode } else sp')
  sp'' ← gets λ s. s.superblock1
  update_superblock_ondisk sp''
  update_single_inode_ondisk node new_inode_index
  pure tt

unfoldable pub make_directory : DirectoryEntry → Text → M (Option DirectoryEntry)
unfolding append_entry_new_block append_entry_last_block start_directory named_entry
make_directory parent_entry newfolder = do
  named ← named_entry (pos 0) newfolder
  sp ← gets λ s. s.superblock1
  if sp.free_inode ==ℤ minus_one then pure none else do
    let newf = record named { inode_index = sp.free_inode }
    dir_fd ← get_fd_from_inode_value parent_entry.inode_index
    t ← table_entry dir_fd
    new_inode ← get_inode sp.free_inode
    current_d ← named_entry sp.free_inode (b'.' ∷ [])
    parent ← named_entry t.file_inode.inode_index (b'.' ∷ b'.' ∷ [])
    set_superblock (record sp { free_inode = new_inode.next_inode })
    dir_data ← get_data_block t.file_inode.last_block_index
    if is_full t.file_inode.size
        then (append_entry_new_block dir_fd t newf >>= λ r. elim r [
          | none ↦ pure none
          | some node ↦
              start_directory false new_inode sp.free_inode node.inode_index current_d parent
              >> pure (some newf)
        ])
        else (do
          node ← append_entry_last_block dir_fd t newf dir_data
          start_directory true new_inode sp.free_inode node.inode_index current_d parent
          pure (some newf))

-- A path with no token leaves `newfolder` NULL, which `strcpy` reads.
unfoldable pub f_mkdir : Text → M (Option DirectoryEntry)
f_mkdir filepath = elim (split_last (strtok is_slash filepath)) [
  | none ↦ undefined
  | some (parents, newfolder) ↦ f_opendir (path_of parents) >>= λ d. elim d [
    | none ↦ pure none
    | some parent_entry ↦ make_directory parent_entry newfolder
  ]
]
