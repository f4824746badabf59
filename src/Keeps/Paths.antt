-- ===== src/Keeps/Paths.antt =====
-- The path helpers of the shell's file commands keep what Keeps says.
use file_system_project.Prelude.{ℕ, zero, suc, Bool, true, false, Option, none, some, List, [], ◌∷◌}
use file_system_project.Prelude.Int.{ℤ, pos, ltb_ℤ}
use file_system_project.Layout.{Inode, DirectoryEntry}
use file_system_project.Store.{FileSystem, M}
use file_system_project.Text.{Text}
use file_system_project.Shell.Paths.{
  followed, inode_of_slot, find_index, get_parentdir_name, enter_found, search_entries, goto_token,
  goto_tokens, goto_absolute, goto_destination, added_node, seek_name, climb_round, climb,
  entry_steps, Climb, Sought, missing, not_found, found_name, joined_names, convert_absolute,
}
use file_system_project.Keeps.{
  IsReady-IsBesideTable, IsBesideTable, Keeps, Keeps-pure, Keeps-undefined, Keeps-bind, Keeps-if,
  Keeps-elim,
}
use file_system_project.Keeps.Table.{
  table_rules, Keeps-get_inode, Keeps-f_rewind, Keeps-get_fd_from_inode_value,
  Keeps-addto_file_table,
}
use file_system_project.Keeps.Directory.{
  Keeps-f_readdir, Keeps-f_opendir, Keeps-free_opened, Keeps-named_entry,
}

module _ {A : Type 0} {P : FileSystem → Type 0} where
  pub Keeps-followed : (x : Option A) → Keeps P (followed x)
  Keeps-followed none = Keeps-undefined
  Keeps-followed (some a) = Keeps-pure a

  -- The outcomes of the search for a name.
  Keeps-sought :
      (r : Sought) (m : M A) (f : Option Inode → M A) (g : ℤ → Option Inode → Text → M A)
      → Keeps P m
      → ((k : Option Inode) → Keeps P (f k))
      → ((fd : ℤ) (k : Option Inode) (name : Text) → Keeps P (g fd k name))
      → Keeps P (elim r [ missing ↦ m | not_found k ↦ f k | found_name fd k name ↦ g fd k name ])
  Keeps-sought missing m f g km kf kg = km
  Keeps-sought (not_found k) m f g km kf kg = kf k
  Keeps-sought (found_name fd k name) m f g km kf kg = kg fd k name

  pub Keeps-either :
      (b : Bool) (m n : M A) → Keeps P m → Keeps P n → Keeps P (elim b [ true ↦ m | false ↦ n ])
  Keeps-either true m n km kn = km
  Keeps-either false m n km kn = kn

module _ {P : FileSystem → Type 0} ⦃o : IsBesideTable P⦄ where
  Keeps-inode_of_slot : (fd : ℤ) → Keeps P (inode_of_slot fd)
  unfolding inode_of_slot
  Keeps-inode_of_slot fd = search (table_rules, Keeps-followed) depth 12

  Keeps-find_index : (n : ℕ) (fd i : ℤ) → Keeps P (find_index n fd i)
  unfolding find_index
  Keeps-find_index zero fd i = Keeps-pure none
  Keeps-find_index (suc n) fd i =
      search (table_rules, Keeps-f_readdir, Keeps-followed, Keeps-find_index n) depth 12

  Keeps-get_parentdir_name : (e : DirectoryEntry) → Keeps P (get_parentdir_name e)
  unfolding get_parentdir_name
  Keeps-get_parentdir_name e = search (table_rules, Keeps-find_index) depth 20

  Keeps-enter_found :
      (node : Inode) (current e : DirectoryEntry) → Keeps P (enter_found node current e)
  unfolding enter_found
  Keeps-enter_found node current e =
      search (table_rules, Keeps-get_parentdir_name, Keeps-followed) depth 24

  Keeps-search_entries :
      (n : ℕ) (fd : ℤ) (node : Inode) (current : DirectoryEntry) (token : Text)
      → Keeps P (search_entries n fd node current token)
  unfolding search_entries
  Keeps-search_entries zero fd node current token = Keeps-pure (some current)
  Keeps-search_entries (suc n) fd node current token = Keeps-bind _ _ (Keeps-f_readdir fd) λ r.
      Keeps-elim r _ _ (Keeps-pure none) λ e.
        Keeps-if _ _ _
          (Keeps-bind _ _ (Keeps-enter_found node current e) λ found. Keeps-pure (some found))
          (Keeps-search_entries n fd node current token)

  Keeps-goto_token : (token : Text) (current : DirectoryEntry) → Keeps P (goto_token token current)
  unfolding goto_token
  Keeps-goto_token token current = Keeps-if _ _ _ (Keeps-pure (some current)) (
      Keeps-bind _ _ (Keeps-get_fd_from_inode_value current.inode_index) λ cur_fd.
        Keeps-bind _ _ (Keeps-inode_of_slot cur_fd) λ node.
          Keeps-bind _ _ (Keeps-get_fd_from_inode_value node.inode_index) λ fd.
            Keeps-bind _ _ (Keeps-f_rewind fd) λ _.
              Keeps-bind _ _ (Keeps-search_entries _ fd node current token) λ found.
                Keeps-elim found _ _ (Keeps-pure none)
                  λ e. Keeps-bind _ _ (Keeps-f_rewind fd) λ _. Keeps-pure (some e))

  Keeps-goto_tokens :
      (tokens : List Text) (current : DirectoryEntry) → Keeps P (goto_tokens tokens current)
  unfolding goto_tokens
  Keeps-goto_tokens [] current = Keeps-pure (some current)
  Keeps-goto_tokens (token ∷ tokens) current =
      Keeps-bind _ _ (Keeps-goto_token token current)
        λ found. Keeps-elim found _ _ (Keeps-pure none) (Keeps-goto_tokens tokens)

  Keeps-goto_absolute : (filepath : Text) → Keeps P (goto_absolute filepath)
  unfolding goto_absolute
  Keeps-goto_absolute filepath = Keeps-bind _ _ (Keeps-f_opendir filepath) λ r.
      Keeps-elim r _ _ (Keeps-pure none)
        λ e. search (table_rules, Keeps-named_entry, Keeps-free_opened) depth 16

  pub Keeps-goto_destination :
      (filepath : Text) (pwd : DirectoryEntry) → Keeps P (goto_destination filepath pwd)
  unfolding goto_destination
  Keeps-goto_destination filepath pwd =
      search (table_rules, Keeps-named_entry, Keeps-goto_absolute, Keeps-goto_tokens) depth 12

  Keeps-added_node : (node : Inode) → Keeps P (added_node node)
  Keeps-added_node node = search table_rules depth 12

  Keeps-seek_name : (n : ℕ) (fd i : ℤ) (above : Inode) → Keeps P (seek_name n fd i above)
  unfolding seek_name
  Keeps-seek_name zero fd i above = Keeps-pure _
  Keeps-seek_name (suc n) fd i above = Keeps-bind _ _ (Keeps-f_readdir fd) λ r.
      Keeps-elim r _ _ (Keeps-pure missing)
        λ e. search (table_rules, Keeps-added_node, Keeps-inode_of_slot, Keeps-seek_name n) depth 20

  Keeps-climb_round : (size : ℤ) (c : Climb) (above : Inode) → Keeps P (climb_round size c above)
  unfolding climb_round
  Keeps-climb_round size c above =
      Keeps-bind _ _ (Keeps-seek_name (entry_steps size) c.parent_fd c.index above) λ r.
        Keeps-sought r _ _ _ (Keeps-pure none)
          (λ kept. search (table_rules, Keeps-followed) depth 12)
          λ fd kept name. search (table_rules, Keeps-followed) depth 12

  Keeps-climb :
      (fuel : ℕ) (size : ℤ) (c : Climb) (above : Inode) → Keeps P (climb fuel size c above)
  unfolding climb
  Keeps-climb zero size c above = Keeps-undefined
  Keeps-climb (suc fuel) size c above =
      Keeps-either (ltb_ℤ (pos 0) c.index) _ _
        (Keeps-bind _ _ (Keeps-climb_round size c above)
          λ r. Keeps-elim r _ _ (Keeps-pure none) λ p. Keeps-climb fuel p.1.size p.0 p.1)
        (Keeps-pure (some c.names))

  Keeps-joined_names : (names : List (Option Text)) → Keeps P (joined_names names)
  unfolding joined_names
  Keeps-joined_names [] = search table_rules
  Keeps-joined_names (name ∷ names) = search table_rules depth 12

  pub Keeps-convert_absolute :
      (fuel : ℕ) (filepath : Text) (pwd : DirectoryEntry)
      → Keeps P (convert_absolute fuel filepath pwd)
  unfolding convert_absolute
  Keeps-convert_absolute fuel filepath pwd =
      Keeps-bind _ _ (Keeps-goto_destination filepath pwd) λ dest.
        Keeps-elim dest _ _ (Keeps-pure none) λ e.
          Keeps-bind _ _ (Keeps-get_fd_from_inode_value e.inode_index) λ cur_fd.
            Keeps-bind _ _ (Keeps-inode_of_slot cur_fd) λ node.
              Keeps-bind _ _ (Keeps-get_inode node.parent_inode_index) λ above.
                Keeps-bind _ _ (Keeps-addto_file_table above _) λ fd.
                  Keeps-bind _ _ (Keeps-inode_of_slot fd) λ parent.
                    Keeps-bind _ _ (Keeps-f_rewind fd) λ _.
                      Keeps-bind _ _ (Keeps-climb fuel parent.size _ parent) λ r.
                        Keeps-elim r _ _ (Keeps-pure none) λ names.
                          Keeps-bind _ _ (Keeps-joined_names names) λ path. Keeps-pure (some path)
