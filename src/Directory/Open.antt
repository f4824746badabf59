-- ===== src/Directory/Open.antt =====
-- `f_opendir` (filesystem.c): the walk from the root along the path's tokens. Slot 0 of the file
-- table is the root; on the way each directory is entered in the table and its parent released.
use file_system_project.Prelude.{
  Bool, ℕ, zero, suc, ◌+◌, ◌/◌, true, false, Option, none, some, List, [], ◌∷◌, if◌then◌else◌, set,
}
use file_system_project.Prelude.Int.{ℤ, pos, negsuc, minus_one, ◌==ℤ◌}
use file_system_project.Layout.{DirectoryEntry}
use file_system_project.Access
use file_system_project.Store.{
  M, pure, ◌>>=◌, ◌>>◌, gets, modify, undefined, table_entry, set_table_entry, set_freehead,
  live_root, free_root,
}
use file_system_project.Disk.{get_inode}
use file_system_project.Table.{already_in_table, update_freehead}
use file_system_project.Directory.{f_readdir}
use file_system_project.Text.{Text, c_string, text_eq, is_slash_or_quote, strtok}

-- Enough rounds to read every entry of a directory of this size, and one that finds its end.
unfoldable pub entries_fuel : ℤ → ℕ
entries_fuel (pos n) = n / 64 + 2
entries_fuel (negsuc n) = 2

unfoldable pub rewind_slot : ℤ → M (Unit {0})
rewind_slot i = do t ← table_entry i; set_table_entry i (record t { byte_offset = pos 0 })

-- The loop `while (found == FALSE)`.
unfoldable pub find_entry : ℕ → ℤ → Text → M (Option DirectoryEntry)
find_entry zero i token = undefined
find_entry (suc fuel) i token =
    let rest = find_entry fuel i token in
    f_readdir i >>= λ r. elim r [
      | none ↦ pure none
      | some e ↦
          if text_eq (c_string e.filename) token then rewind_slot i >> pure (some e) else rest
    ]

unfoldable pub scan : ℤ → Text → M (Option DirectoryEntry)
unfolding find_entry rewind_slot entries_fuel
scan i token = do
  rewind_slot i
  t ← table_entry i
  find_entry (entries_fuel t.file_inode.size) i token

-- The directory in slot i is done with; the root stays.
unfoldable pub leave : ℤ → M (Unit {0})
leave i =
    if i ==ℤ pos 0
    then update_freehead
    else do t ← table_entry i; set_table_entry i (record t { free_file = true }); set_freehead i

-- The slot of the entry's inode, a new one unless it has one.
unfoldable pub enter : DirectoryEntry → M ℤ
enter e = do
  node ← get_inode e.inode_index
  fd ← already_in_table node
  head ← gets λ s. s.table_freehead
  if fd ==ℤ minus_one
      then set_table_entry head (record {
        free_file = false;
        file_inode = node;
        byte_offset = pos 0;
        access = Access.read_and_write;
      })
        >> pure head
      else pure fd

unfoldable pub walk : List Text → ℤ → DirectoryEntry → M (Option DirectoryEntry)
walk [] i e = update_freehead >> pure (some e)
walk (token ∷ tokens) i e = do
  found ← scan i token
  leave i
  elim found [ none ↦ pure none | some e' ↦ enter e' >>= λ j. walk tokens j e' ]

-- The root in slot 0, as it is found or made.
unfoldable pub open_root : M (Unit {0})
open_root = do
  root_node ← get_inode (pos 0)
  t ← table_entry (pos 0)
  if t.free_file
      then set_table_entry (pos 0) (record {
        free_file = false;
        file_inode = root_node;
        byte_offset = pos 0;
        access = Access.read_and_write;
      })
        >> live_root
        >> modify (λ s. record s {
          root_dir_entry = record {
            inode_index = pos 0;
            filename = set (set s.root_dir_entry.filename 0 b'/') 1 0;
          };
        })
      else set_table_entry (pos 0) (record t { byte_offset = pos 0 })

-- A path with no token is the root's: its entry is `root_dir_entry` itself, which every caller
-- follows. An entry below the root is an object of its own.
unfoldable pub is_root : Text → Bool
is_root filepath = elim (strtok is_slash_or_quote filepath) [ [] ↦ true | t ∷ ts ↦ false ]

unfoldable pub follow_opened : Text → M (Unit {0})
unfolding is_root
follow_opened filepath = if is_root filepath then live_root else pure tt

-- `free` of what `f_opendir` gave for this path.
unfoldable pub free_opened : Text → M (Unit {0})
unfolding is_root
free_opened filepath = if is_root filepath then free_root else pure tt

unfoldable pub f_opendir : Text → M (Option DirectoryEntry)
unfolding open_root walk follow_opened
f_opendir filepath = do
  open_root
  update_freehead
  follow_opened filepath
  root ← gets λ s. s.root_dir_entry
  walk (strtok is_slash_or_quote filepath) (pos 0) root
