-- ===== src/Keeps/Directory.antt =====
-- f_readdir, f_opendir and f_mkdir keep what Keeps says.
use file_system_project.Prelude.{
  set, ℕ, zero, suc, Bool, true, false, Option, none, some, List, [], ◌∷◌,
}
use file_system_project.Prelude.Int.{ℤ, pos, negsuc}
use file_system_project.Memory.{Memory}
use file_system_project.Layout.{Inode, DirectoryEntry}
use file_system_project.Store.{FileSystem, FileTableEntry, pure, ◌>>=◌, ◌>>◌}
use file_system_project.Text.{Text, strtok, is_slash, path_of, split_last}
use file_system_project.Directory.{
  nat, direct_copy, indirect_copy, far_entry, near_entry, advance, read_entry, f_readdir,
}
use file_system_project.Directory.Open.{
  rewind_slot, find_entry, scan, leave, enter, walk, open_root, follow_opened, free_opened,
  f_opendir,
}
use file_system_project.Directory.Make.{
  named_entry, append_entry_new_block, append_entry_last_block, start_directory, make_directory,
  f_mkdir,
}
use file_system_project.Keeps.{
  Keeps-table_entry, Keeps-set_table_entry, Keeps-root_dir_entry, Keeps-live_root, IsReady,
  IsReady-IsBesideTable, IsBesideTable, Keeps, Keeps-pure, Keeps-undefined, Keeps-bind, Keeps-if,
  Keeps-elim,
}
use file_system_project.Keeps.Table.{table_rules, Keeps-get_inode}
use file_system_project.Keeps.BlockMap.{Keeps-find_next_datablock}

module _ {P : FileSystem → Type 0} ⦃o : IsBesideTable P⦄ where
  pub Keeps-nat : (n : ℤ) → Keeps P (nat n)
  Keeps-nat (pos n) = Keeps-pure n
  Keeps-nat (negsuc n) = Keeps-undefined

  Keeps-direct_copy : (b o : ℤ) → Keeps P (direct_copy b o)
  unfolding direct_copy
  Keeps-direct_copy b o = search (table_rules, Keeps-nat) depth 12

  Keeps-indirect_copy : (i b o : ℤ) → Keeps P (indirect_copy i b o)
  unfolding indirect_copy
  Keeps-indirect_copy i b o = search (table_rules, Keeps-direct_copy) depth 12

  Keeps-far_entry : (size : ℕ) (node : Inode) (o : ℤ) → Keeps P (far_entry size node o)
  unfolding far_entry
  Keeps-far_entry size node o = search (table_rules, Keeps-indirect_copy) depth 20

  Keeps-near_entry : (size : ℕ) (node : Inode) (o : ℤ) → Keeps P (near_entry size node o)
  unfolding near_entry
  Keeps-near_entry size node o = search (table_rules, Keeps-direct_copy) depth 12

  Keeps-advance : (i : ℤ) (e : Option DirectoryEntry) → Keeps P (advance i e)
  unfolding advance
  Keeps-advance i none = search table_rules
  Keeps-advance i (some e) = search table_rules depth 12

  Keeps-read_entry : (i : ℤ) (t : FileTableEntry) → Keeps P (read_entry i t)
  unfolding read_entry
  Keeps-read_entry i t =
      search (table_rules, Keeps-nat, Keeps-near_entry, Keeps-far_entry, Keeps-advance) depth 20

  pub Keeps-f_readdir : (i : ℤ) → Keeps P (f_readdir i)
  unfolding f_readdir
  Keeps-f_readdir i = search (table_rules, Keeps-read_entry) depth 12

  Keeps-rewind_slot : (i : ℤ) → Keeps P (rewind_slot i)
  unfolding rewind_slot
  Keeps-rewind_slot i = search table_rules depth 12

  Keeps-find_entry : (fuel : ℕ) (i : ℤ) (token : Text) → Keeps P (find_entry fuel i token)
  unfolding find_entry
  Keeps-find_entry zero i token = search table_rules
  Keeps-find_entry (suc fuel) i token = Keeps-bind _ _ (Keeps-f_readdir i) λ r.
      Keeps-elim r _ _ (Keeps-pure none) λ e.
        Keeps-if _ _ _ (Keeps-bind _ _ (Keeps-rewind_slot i) λ _. Keeps-pure (some e))
          (Keeps-find_entry fuel i token)

  Keeps-scan : (i : ℤ) (token : Text) → Keeps P (scan i token)
  unfolding scan
  Keeps-scan i token = search (table_rules, Keeps-rewind_slot, Keeps-find_entry) depth 12

  Keeps-leave : (i : ℤ) → Keeps P (leave i)
  unfolding leave
  Keeps-leave i = search table_rules depth 12

  Keeps-enter : (e : DirectoryEntry) → Keeps P (enter e)
  unfolding enter
  Keeps-enter e = search table_rules depth 20

  Keeps-walk : (tokens : List Text) (i : ℤ) (e : DirectoryEntry) → Keeps P (walk tokens i e)
  unfolding walk
  Keeps-walk [] i e = search table_rules depth 12
  Keeps-walk (token ∷ tokens) i e = Keeps-bind _ _ (Keeps-scan i token) λ found.
      Keeps-bind _ _ (Keeps-leave i) λ _.
        Keeps-elim found _ _ (Keeps-pure none)
          λ e'. Keeps-bind _ _ (Keeps-enter e') λ j. Keeps-walk tokens j e'

  pub Keeps-open_root : Keeps P open_root
  unfolding open_root
  Keeps-open_root = Keeps-bind _ _ (Keeps-get_inode (pos 0)) λ node.
      Keeps-bind _ _ (Keeps-table_entry (pos 0)) λ t.
        Keeps-if t.free_file _ _
          (Keeps-bind _ _ (Keeps-bind _ _ (Keeps-set_table_entry (pos 0) _) λ _. Keeps-live_root)
            λ _. Keeps-root_dir_entry λ s. record {
              inode_index = pos 0;
              filename = set (set s.root_dir_entry.filename 0 b'/') 1 0;
            })
          (Keeps-set_table_entry (pos 0) _)

  Keeps-follow_opened : (filepath : Text) → Keeps P (follow_opened filepath)
  unfolding follow_opened
  Keeps-follow_opened filepath = search table_rules

  pub Keeps-free_opened : (filepath : Text) → Keeps P (free_opened filepath)
  unfolding free_opened
  Keeps-free_opened filepath = search table_rules

  pub Keeps-f_opendir : (filepath : Text) → Keeps P (f_opendir filepath)
  unfolding f_opendir
  Keeps-f_opendir filepath =
      search (table_rules, Keeps-open_root, Keeps-follow_opened, Keeps-walk) depth 12

  pub Keeps-named_entry : (i : ℤ) (name : Text) → Keeps P (named_entry i name)
  unfolding named_entry
  Keeps-named_entry i name = search table_rules depth 12

module _ {d : ℕ} where
  pub Keeps-append_entry_new_block :
      (fd : ℤ) (t : FileTableEntry) (e : DirectoryEntry)
      → Keeps (IsReady d) (append_entry_new_block fd t e)
  unfolding append_entry_new_block
  Keeps-append_entry_new_block fd t e = search (table_rules, Keeps-find_next_datablock) depth 24

  pub Keeps-append_entry_last_block :
      (fd : ℤ) (t : FileTableEntry) (e : DirectoryEntry) (m : Memory)
      → Keeps (IsReady d) (append_entry_last_block fd t e m)
  unfolding append_entry_last_block
  Keeps-append_entry_last_block fd t e m = search (table_rules, Keeps-nat) depth 24

  Keeps-start_directory :
      (set_last : Bool) (node : Inode) (i parent_index : ℤ) (current_d parent : DirectoryEntry)
      → Keeps (IsReady d) (start_directory set_last node i parent_index current_d parent)
  unfolding start_directory
  Keeps-start_directory true node i parent_index current_d parent = search table_rules depth 30
  Keeps-start_directory false node i parent_index current_d parent = search table_rules depth 30

  Keeps-start_in_new_block :
      (fd : ℤ) (t : FileTableEntry) (newf current_d parent : DirectoryEntry) (node : Inode) (i : ℤ)
      → Keeps (IsReady d) (
          append_entry_new_block fd t newf >>= λ r. elim r [
            | none ↦ pure none
            | some above ↦
                start_directory false node i above.inode_index current_d parent >> pure (some newf)
          ])
  Keeps-start_in_new_block fd t newf current_d parent node i =
      Keeps-bind _ _ (Keeps-append_entry_new_block fd t newf) λ r.
        Keeps-elim r _ _ (Keeps-pure none) λ above.
          Keeps-bind _ _ (Keeps-start_directory false node i above.inode_index current_d parent)
            λ _. Keeps-pure (some newf)

  Keeps-make_directory :
      (e : DirectoryEntry) (name : Text) → Keeps (IsReady d) (make_directory e name)
  unfolding make_directory
  Keeps-make_directory e name =
      search
        (
          Keeps-start_in_new_block, table_rules, Keeps-named_entry, Keeps-append_entry_last_block,
          Keeps-start_directory,
        )
        depth 40

  pub Keeps-f_mkdir : (filepath : Text) → Keeps (IsReady d) (f_mkdir filepath)
  unfolding f_mkdir
  Keeps-f_mkdir filepath =
      Keeps-elim (split_last (strtok is_slash filepath)) _ _ Keeps-undefined λ p.
        Keeps-bind _ _ (Keeps-f_opendir (path_of p.0))
          λ found. Keeps-elim found _ _ (Keeps-pure none) λ parent. Keeps-make_directory parent p.1
