-- ===== src/Keeps/Remove.antt =====
-- f_remove and f_rmdir keep what Keeps says.
use file_system_project.Prelude.{ℕ, zero, suc, false, none, some}
use file_system_project.Prelude.Int.{ℤ, pos, ◌==ℤ◌}
use file_system_project.Layout.{Inode, DirectoryEntry, reg}
use file_system_project.Directory.Open.{entries_fuel}
use file_system_project.Text.{Text, strtok, is_slash_or_quote, path_of, split_last}
use file_system_project.File.Remove.{
  find_name, drop_entry, free_inode, free_blocks, write_superblock_region, remove_found,
  remove_from, f_remove, get_first_direntry, f_rmdir_helper, f_rmdir,
}
use file_system_project.Store.{FileSystem}
use file_system_project.Keeps.{
  IsReady, IsReady-IsBesideTable, IsBesideTable, Keeps, Keeps-pure, Keeps-undefined, Keeps-bind,
  Keeps-if, Keeps-elim, Keeps-table_entry,
}
use file_system_project.Keeps.Table.{
  table_rules, Keeps-get_inode, Keeps-get_data_block, Keeps-get_inode_from_file_table,
}
use file_system_project.Keeps.BlockMap.{Keeps-get_block_from_index}
use file_system_project.Keeps.Directory.{Keeps-f_readdir, Keeps-f_opendir}

module _ {P : FileSystem → Type 0} ⦃o : IsBesideTable P⦄ where
  Keeps-find_name : (fuel : ℕ) (i : ℤ) (name : Text) → Keeps P (find_name fuel i name)
  unfolding find_name
  Keeps-find_name zero i name = Keeps-undefined
  Keeps-find_name (suc fuel) i name = Keeps-bind _ _ (Keeps-f_readdir i) λ r.
      Keeps-elim r _ _ (Keeps-pure none)
        λ e. Keeps-if _ _ _ (Keeps-pure (some e)) (Keeps-find_name fuel i name)

module _ {d : ℕ} where
  Keeps-drop_entry : (i : ℤ) (e : DirectoryEntry) → Keeps (IsReady d) (drop_entry i e)
  unfolding drop_entry
  Keeps-drop_entry i e = search (table_rules, Keeps-get_block_from_index) depth 60

  Keeps-free_inode : (node : Inode) → Keeps (IsReady d) (free_inode node)
  unfolding free_inode
  Keeps-free_inode node = search table_rules depth 20

  Keeps-free_blocks : (n : ℕ) (i : ℤ) (node : Inode) → Keeps (IsReady d) (free_blocks n i node)
  unfolding free_blocks
  Keeps-free_blocks zero i node = search table_rules
  Keeps-free_blocks (suc n) i node =
      search (table_rules, Keeps-get_block_from_index, Keeps-free_blocks n) depth 30

  Keeps-write_superblock_region : Keeps (IsReady d) write_superblock_region
  unfolding write_superblock_region
  Keeps-write_superblock_region = search table_rules depth 12

  Keeps-remove_found : (i : ℤ) (e : DirectoryEntry) → Keeps (IsReady d) (remove_found i e)
  unfolding remove_found
  Keeps-remove_found i e =
      search
        (
          table_rules, Keeps-drop_entry, Keeps-free_inode, Keeps-free_blocks,
          Keeps-write_superblock_region,
        )
        depth 30

  Keeps-remove_from : (e : DirectoryEntry) (name : Text) → Keeps (IsReady d) (remove_from e name)
  unfolding remove_from
  Keeps-remove_from e name = Keeps-bind _ _ (Keeps-get_inode_from_file_table e) λ i.
      Keeps-bind _ _ (Keeps-table_entry i) λ t.
        Keeps-bind _ _ (Keeps-get_data_block t.file_inode.last_block_index) λ _.
          Keeps-bind _ _ (Keeps-find_name (entries_fuel t.file_inode.size) i name)
            λ found. Keeps-elim found _ _ (Keeps-pure false) (Keeps-remove_found i)

  pub Keeps-f_remove : (filepath : Text) → Keeps (IsReady d) (f_remove filepath)
  unfolding f_remove
  Keeps-f_remove filepath =
      Keeps-elim (split_last (strtok is_slash_or_quote filepath)) _ _ Keeps-undefined λ p.
        Keeps-bind _ _ (Keeps-f_opendir (path_of p.0))
          λ found. Keeps-elim found _ _ (Keeps-pure false) λ parent. Keeps-remove_from parent p.1

module _ {P : FileSystem → Type 0} ⦃o : IsBesideTable P⦄ where
  Keeps-get_first_direntry : (node : Inode) → Keeps P (get_first_direntry node)
  unfolding get_first_direntry
  Keeps-get_first_direntry node = search table_rules depth 20

module _ {d : ℕ} where
  Keeps-f_rmdir_helper :
      (fuel : ℕ) (filepath : Text) (node : Inode)
      → Keeps (IsReady d) (f_rmdir_helper fuel filepath node)
  unfolding f_rmdir_helper
  Keeps-f_rmdir_helper zero filepath node = Keeps-undefined
  Keeps-f_rmdir_helper (suc fuel) filepath node =
      let remove = Keeps-bind _ _ (Keeps-f_remove filepath) λ _. Keeps-pure tt in
      Keeps-if (node.type ==ℤ reg) _ _ remove (
        Keeps-if (node.size ==ℤ pos 128) _ _ remove (
          Keeps-bind _ _ (Keeps-get_first_direntry node) λ e.
            Keeps-bind _ _ (Keeps-get_inode e.inode_index)
              λ below. Keeps-f_rmdir_helper fuel _ below))

  pub Keeps-f_rmdir : (fuel : ℕ) (filepath : Text) → Keeps (IsReady d) (f_rmdir fuel filepath)
  unfolding f_rmdir
  Keeps-f_rmdir fuel filepath = Keeps-bind _ _ (Keeps-f_opendir filepath) λ found.
      Keeps-elim found _ _ (Keeps-pure none) λ e.
        Keeps-bind _ _ (Keeps-get_inode e.inode_index)
          λ node. Keeps-bind _ _ (Keeps-f_rmdir_helper fuel filepath node) λ _. Keeps-pure (some e)
