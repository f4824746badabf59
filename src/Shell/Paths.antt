-- ===== src/Shell/Paths.antt =====
-- shell.c: the paths of the file commands, seen from `pwd_directory`, which is an argument. A node
-- that was freed and is read again is `none`, but where the value that is read is not used.
use file_system_project.Prelude.{
  ℕ, zero, suc, ◌+◌, ◌*◌, ◌/◌, Bool, true, false, Option, none, some, List, [], ◌∷◌, ◌==◌, ltb,
  if◌then◌else◌, length,
}
use file_system_project.Prelude.Int.{ℤ, pos, negsuc, minus_one, ltb_ℤ, ◌==ℤ◌}
use file_system_project.Access
use file_system_project.Layout.{DirectoryEntry, Inode, filename_max}
use file_system_project.Store.{M, pure, undefined, ◌>>=◌, ◌>>◌, or_undefined}
use file_system_project.Disk.{get_inode}
use file_system_project.Table.{
  get_fd_from_inode_value, get_table_entry, f_rewind, addto_file_table, remove_from_file_table,
  already_in_table,
}
use file_system_project.Directory.{f_readdir}
use file_system_project.Directory.Open.{f_opendir, free_opened}
use file_system_project.Directory.Make.{named_entry}
use file_system_project.Text.{Text, c_string, text_eq, strcpy, is_slash, strtok, path_of}

abbrev pub dot : Text
dot = b'.' ∷ []

abbrev pub dot_dot : Text
dot_dot = b'.' ∷ b'.' ∷ []

-- A pointer that is followed; `none` is NULL.
abbrev pub followed : {A : Type 0} → Option A → M A
followed none = undefined
followed (some a) = pure a

-- The inode of an open slot.
unfoldable pub inode_of_slot : ℤ → M Inode
inode_of_slot fd = do e ← get_table_entry fd; t ← followed e; pure t.file_inode

-- `for (int i = 0; i < size; i += sizeof(directory_entry))`
unfoldable pub entry_steps : ℤ → ℕ
entry_steps (pos n) = (n + 63) / 64
entry_steps (negsuc n) = 0

unfoldable pub find_index : ℕ → ℤ → ℤ → M (Option Text)
find_index zero fd index = pure none
find_index (suc n) fd index = do
  r ← f_readdir fd
  ent ← followed r
  if ent.inode_index ==ℤ index then pure (some (c_string ent.filename)) else find_index n fd index

-- `none` is NULL. The name of "..'s" directory is looked up in the directory above that.
unfoldable pub get_parentdir_name : DirectoryEntry → M (Option Text)
unfolding find_index
get_parentdir_name entry =
    if text_eq (c_string entry.filename) dot_dot
    then (do
      parent ← get_inode entry.inode_index
      grand_parent ← get_inode parent.parent_inode_index
      grand_fd ← get_fd_from_inode_value grand_parent.inode_index
      f_rewind grand_fd
      find_index (entry_steps grand_parent.size) grand_fd parent.inode_index)
    else pure (some (c_string entry.filename))

-- An entry with the name that was sought: the directory is entered.
unfoldable pub enter_found : Inode → DirectoryEntry → DirectoryEntry → M DirectoryEntry
enter_found prev_node current entry =
    (if prev_node.inode_index ==ℤ pos 0 then pure (pos 0) else remove_from_file_table prev_node)
    >> get_parentdir_name entry
    >>= λ r. followed r >>= λ name. or_undefined (strcpy current.filename name) >>= λ array.
        get_inode entry.inode_index >>= λ node. get_inode node.parent_inode_index >>= λ parent_node.
        addto_file_table parent_node Access.append
        >> addto_file_table node Access.append
        >> pure (record { inode_index = entry.inode_index; filename = array })

-- The loop over the entries of a directory; it ends without a word where no entry has the name.
unfoldable pub search_entries : ℕ → ℤ → Inode → DirectoryEntry → Text → M (Option DirectoryEntry)
search_entries zero fd node current token = pure (some current)
search_entries (suc n) fd node current token =
    let rest = search_entries n fd node current token in
    f_readdir fd >>= λ r. elim r [
      | none ↦ pure none
      | some entry ↦
          if text_eq (c_string entry.filename) token
          then (enter_found node current entry >>= λ d. pure (some d))
          else rest
    ]

-- One token of a relative path.
unfoldable pub goto_token : Text → DirectoryEntry → M (Option DirectoryEntry)
goto_token token current = if text_eq token dot then pure (some current) else do
  cur_fd ← get_fd_from_inode_value current.inode_index
  node ← inode_of_slot cur_fd
  current_fd ← get_fd_from_inode_value node.inode_index
  f_rewind current_fd
  found ← search_entries (entry_steps node.size) current_fd node current token
  elim found [ none ↦ pure none | some d ↦ f_rewind current_fd >> pure (some d) ]

unfoldable pub goto_tokens : List Text → DirectoryEntry → M (Option DirectoryEntry)
goto_tokens [] current = pure (some current)
goto_tokens (token ∷ tokens) current = goto_token token current >>= λ found. elim found [
  | none ↦ pure none
  | some d ↦ goto_tokens tokens d
]

unfoldable pub goto_absolute : Text → M (Option DirectoryEntry)
goto_absolute filepath = f_opendir filepath >>= λ r. elim r [
  | none ↦ pure none
  | some entry ↦ do
    d ← named_entry entry.inode_index (c_string entry.filename)
    node ← get_inode entry.inode_index
    addto_file_table node Access.append
    free_opened filepath
    pure (some d)
]

abbrev pub is_first : ℕ → Text → Bool
is_first c [] = false
is_first c (d ∷ ds) = d == c

-- `none` is NULL. With `change_pwd` the caller's `pwd_directory` becomes the result.
unfoldable pub goto_destination : Text → DirectoryEntry → M (Option DirectoryEntry)
goto_destination filepath pwd = do
  current ← named_entry pwd.inode_index (c_string pwd.filename)
  if is_first b'/' filepath
      then goto_absolute filepath
      else goto_tokens (strtok is_slash filepath) current

-- `cur->inode_index`, `old_parent_index` and `parent_fd`; and `absolute_path_collection`, the last
-- name first, `none` where a pointer is not set.
pub record Climb : Type 0 where
  pub index : ℤ
  pub old_parent_index : ℤ
  pub parent_fd : ℤ
  pub names : List (Option Text)

-- `addto_file_table` frees a node whose inode is in the table already; `none` where that is read.
abbrev pub added_node : Inode → M (ℤ × Option Inode)
added_node node = do
  fd ← already_in_table node
  new_fd ← addto_file_table node Access.append
  pure (new_fd, if fd ==ℤ minus_one then some node else none)

-- The inner loop of `convert_absolute`: the slot of the next parent, that parent, and the name.
-- `none` is the entry that is missing.
pub data Sought : Type 0 where
  missing : Sought
  not_found : Option Inode → Sought
  found_name : ℤ → Option Inode → Text → Sought

unfoldable pub seek_name : ℕ → ℤ → ℤ → Inode → M Sought
seek_name zero parent_fd index parent_node = pure (not_found (some parent_node))
seek_name (suc n) parent_fd index parent_node = f_readdir parent_fd >>= λ r. elim r [
  | none ↦ pure missing
  | some entry ↦ do
    above ←
        if text_eq (c_string entry.filename) dot_dot
        then get_inode entry.inode_index
        else pure parent_node
    if entry.inode_index ==ℤ index
        then (do
          (new_fd, kept) ← added_node above
          inode_of_slot parent_fd
          pure (found_name new_fd kept (c_string entry.filename)))
        else seek_name n parent_fd index above
]

-- One round of the outer loop; `none` is NULL. A freed `parent_node` is read.
unfoldable pub climb_round : ℤ → Climb → Inode → M (Option (Climb × Inode))
unfolding seek_name entry_steps
climb_round size c parent_node = do
  r ← seek_name (entry_steps size) c.parent_fd c.index parent_node
  elim r [
    | missing ↦ pure none
    | not_found kept ↦ do
      above ← followed kept
      f_rewind c.parent_fd
      pure (
          some (
            record {
              index = c.old_parent_index;
              old_parent_index = above.inode_index;
              parent_fd = c.parent_fd;
              names = none ∷ c.names;
            },
            above,
          ))
    | found_name new_fd kept name ↦
        if ltb (length c.names) filename_max
        then (do
          above ← followed kept
          f_rewind new_fd
          pure (
              some (
                record {
                  index = c.old_parent_index;
                  old_parent_index = above.inode_index;
                  parent_fd = new_fd;
                  names = some name ∷ c.names;
                },
                above,
              )))
        else undefined
  ]

-- The outer loop; the fuel bounds the depth.
unfoldable pub climb : ℕ → ℤ → Climb → Inode → M (Option (List (Option Text)))
unfolding climb_round
climb zero size c parent_node = undefined
climb (suc fuel) size c parent_node = elim (ltb_ℤ (pos 0) c.index) [
  | true ↦ climb_round size c parent_node >>= λ r. elim r [
    | none ↦ pure none
    | some (c', above) ↦ climb fuel above.size c' above
  ]
  | false ↦ pure (some c.names)
]

-- The names, the last one first; `none` where one is not set.
unfoldable pub set_names : List (Option Text) → Option (List Text)
set_names [] = some []
set_names (none ∷ names) = none
set_names (some name ∷ names) = elim (set_names names) [ none ↦ none | some ws ↦ some (name ∷ ws) ]

-- The names in a buffer of `count*FILENAMEMAX` characters.
unfoldable pub joined_names : List (Option Text) → M Text
unfolding set_names
joined_names [] = pure (b'/' ∷ [])
joined_names (name ∷ names) = or_undefined (set_names (name ∷ names)) >>= λ ws.
    if ltb (length (path_of ws)) (length ws * filename_max) then pure (path_of ws) else undefined

unfoldable pub convert_absolute : ℕ → Text → DirectoryEntry → M (Option Text)
unfolding joined_names climb
convert_absolute fuel filepath pwd = goto_destination filepath pwd >>= λ dest. elim dest [
  | none ↦ pure none
  | some d ↦ do
    cur_fd ← get_fd_from_inode_value d.inode_index
    cur_node ← inode_of_slot cur_fd
    above ← get_inode cur_node.parent_inode_index
    parent_fd ← addto_file_table above Access.append
    parent_node ← inode_of_slot parent_fd
    f_rewind parent_fd
    names ←
        climb fuel parent_node.size
          (record {
            index = d.inode_index;
            old_parent_index = parent_node.inode_index;
            parent_fd = parent_fd;
            names = [];
          })
          parent_node
    elim names [ none ↦ pure none | some ns ↦ joined_names ns >>= λ path. pure (some path) ]
]
