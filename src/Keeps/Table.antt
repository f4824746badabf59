-- ===== src/Keeps/Table.antt =====
-- The operations on blocks, inodes, the superblock and the open-file table keep what Keeps says.
use file_system_project.Prelude.{ℕ}
use file_system_project.Prelude.Int.{ℤ}
use file_system_project.Memory.{Memory}
use file_system_project.Layout.{Superblock, DirectoryEntry, Inode}
use file_system_project.Disk.{
  get_data_block, write_data_to_block, update_superblock_ondisk, request_new_block, get_inode,
  update_single_inode_ondisk, if_is_file,
}
use file_system_project.Table.{
  find_next_freehead, already_in_table, get_fd_from_inode_value, get_table_entry, update_freehead,
  get_inode_from_file_table_from_directory_entry, f_close, f_rewind, f_seek, f_closedir,
  DirectoryPointer, null, root_entry, own, addto_file_table, remove_from_file_table,
}
use file_system_project.Store.{FileSystem}
use file_system_project.Keeps.{
  IsReady, IsReady-IsBesideTable, IsBesideTable, Keeps, Keeps-gets, Keeps-bind, Keeps-pure,
  keeps_rules,
}

module _ {P : FileSystem → Type 0} ⦃o : IsBesideTable P⦄ where
  pub Keeps-get_data_block : (i : ℤ) → Keeps P (get_data_block i)
  unfolding get_data_block
  Keeps-get_data_block i = search keeps_rules

  pub Keeps-get_inode : (i : ℤ) → Keeps P (get_inode i)
  unfolding get_inode
  Keeps-get_inode i = search keeps_rules

  pub Keeps-if_is_file : (i : ℤ) → Keeps P (if_is_file i)
  unfolding if_is_file
  Keeps-if_is_file i = search (keeps_rules, Keeps-get_inode)

  pub Keeps-find_next_freehead : Keeps P find_next_freehead
  unfolding find_next_freehead
  Keeps-find_next_freehead = search keeps_rules

  pub Keeps-already_in_table : (node : Inode) → Keeps P (already_in_table node)
  unfolding already_in_table
  Keeps-already_in_table node = search keeps_rules

  pub Keeps-get_fd_from_inode_value : (i : ℤ) → Keeps P (get_fd_from_inode_value i)
  unfolding get_fd_from_inode_value
  Keeps-get_fd_from_inode_value i = search keeps_rules

  pub Keeps-get_inode_from_file_table :
      (e : DirectoryEntry) → Keeps P (get_inode_from_file_table_from_directory_entry e)
  unfolding get_inode_from_file_table_from_directory_entry
  Keeps-get_inode_from_file_table e = search keeps_rules

  pub Keeps-get_table_entry : (i : ℤ) → Keeps P (get_table_entry i)
  unfolding get_table_entry
  Keeps-get_table_entry i = search keeps_rules

  pub Keeps-update_freehead : Keeps P update_freehead
  unfolding update_freehead
  Keeps-update_freehead = search (keeps_rules, Keeps-find_next_freehead)

  pub Keeps-f_close : (fd : ℤ) → Keeps P (f_close fd)
  unfolding f_close
  Keeps-f_close fd = search (keeps_rules, Keeps-update_freehead) depth 12

  pub Keeps-f_rewind : (fd : ℤ) → Keeps P (f_rewind fd)
  unfolding f_rewind
  Keeps-f_rewind fd = search keeps_rules depth 12

  pub Keeps-f_seek : (fd offset whence : ℤ) → Keeps P (f_seek fd offset whence)
  unfolding f_seek
  Keeps-f_seek fd offset whence = search keeps_rules depth 12

  pub Keeps-f_closedir : (e : DirectoryPointer) → Keeps P (f_closedir e)
  unfolding f_closedir
  Keeps-f_closedir null = Keeps-pure _
  Keeps-f_closedir root_entry = search (keeps_rules, Keeps-f_close) depth 16
  Keeps-f_closedir (own e) = search (keeps_rules, Keeps-f_close) depth 12

  pub Keeps-addto_file_table : (node : Inode) (access : ℤ) → Keeps P (addto_file_table node access)
  unfolding addto_file_table
  Keeps-addto_file_table node access =
      search (keeps_rules, Keeps-already_in_table, Keeps-find_next_freehead) depth 12

  pub Keeps-remove_from_file_table : (node : Inode) → Keeps P (remove_from_file_table node)
  unfolding remove_from_file_table
  Keeps-remove_from_file_table node = search (keeps_rules, Keeps-already_in_table) depth 12

module _ {d : ℕ} where
  pub Keeps-write_data_to_block :
      (i : ℤ) (m : Memory) (n : ℤ) → Keeps (IsReady d) (write_data_to_block i m n)
  unfolding write_data_to_block
  Keeps-write_data_to_block i m n = search keeps_rules

  pub Keeps-update_superblock_ondisk :
      (sp : Superblock) → Keeps (IsReady d) (update_superblock_ondisk sp)
  unfolding update_superblock_ondisk
  Keeps-update_superblock_ondisk sp = search keeps_rules

  pub Keeps-update_single_inode_ondisk :
      (node : Inode) (i : ℤ) → Keeps (IsReady d) (update_single_inode_ondisk node i)
  unfolding update_single_inode_ondisk
  Keeps-update_single_inode_ondisk node i = search keeps_rules

  pub Keeps-request_new_block : Keeps (IsReady d) request_new_block
  unfolding request_new_block
  Keeps-request_new_block =
      search (keeps_rules, Keeps-get_data_block, Keeps-update_superblock_ondisk) depth 12

-- The rules with those of these operations.
pub ruleset table_rules = (
  keeps_rules, Keeps-get_data_block, Keeps-write_data_to_block, Keeps-update_superblock_ondisk,
  Keeps-get_inode, Keeps-update_single_inode_ondisk, Keeps-request_new_block, Keeps-if_is_file,
  Keeps-already_in_table, Keeps-get_fd_from_inode_value, Keeps-get_inode_from_file_table,
  Keeps-get_table_entry, Keeps-update_freehead, Keeps-f_close, Keeps-f_rewind,
  Keeps-addto_file_table, Keeps-remove_from_file_table,
)
