-- ===== src/Shell/FileCommands.antt =====
-- shell.c: mkdir, rm, rmdir, cd, pwd and ls. `pwd_directory` is an argument, or a result of cd; what
-- is printed is a result.
use file_system_project.Prelude.{
  ℕ, zero, suc, Bool, Option, none, some, List, [], ◌∷◌, ◌++◌, if◌then◌else◌,
}
use file_system_project.Prelude.Int.{ℤ, ◌==ℤ◌}
use file_system_project.Access
use file_system_project.Layout.{DirectoryEntry, dir}
use file_system_project.Directory.Open.{free_opened}
use file_system_project.Store.{M, pure, undefined, ◌>>=◌, ◌>>◌}
use file_system_project.Disk.{get_inode}
use file_system_project.Table.{f_rewind, addto_file_table}
use file_system_project.Directory.{f_readdir}
use file_system_project.Directory.Make.{f_mkdir}
use file_system_project.File.Remove.{f_remove, f_rmdir}
use file_system_project.Text.{Text, c_string, text_eq, is_slash, strtok, path_of, split_last}
use file_system_project.Shell.Paths.{followed, is_first, goto_destination, convert_absolute}

-- `path = strcat(path, newfolder); path = strcat(path, "/");` for each token.
unfoldable pub relative_path : List Text → Text
relative_path [] = []
relative_path (t ∷ ts) = t ++ b'/' ∷ relative_path ts

-- The path of a directory and a name in it.
unfoldable pub parent_path : Bool → Option (List Text × Text) → Option (Text × Text)
unfolding relative_path
parent_path relative none = none
parent_path relative (some (parents, name)) =
    some (if relative then relative_path parents else path_of parents, name)

-- The directory of an argument and the last token, NULL where there is none. Only a path that begins
-- with a '.' is kept relative.
unfoldable pub directory_of : Text → Option (Text × Text)
unfolding parent_path
directory_of argument = parent_path (is_first b'.' argument) (split_last (strtok is_slash argument))

-- The path that mkdir and rm work on. `strlen` reads both strings.
unfoldable pub path_in : ℕ → DirectoryEntry → Option (Text × Text) → M Text
path_in fuel pwd target = do
  (path, name) ← followed target
  r ← convert_absolute fuel path pwd
  absolute ← followed r
  pure (absolute ++ b'/' ∷ name)

unfoldable pub target_path : ℕ → Text → DirectoryEntry → M Text
unfolding directory_of path_in
target_path fuel argument pwd = path_in fuel pwd (directory_of argument)

unfoldable pub mkdir_builtin : ℕ → List Text → DirectoryEntry → M (Unit {0})
unfolding target_path
mkdir_builtin fuel [] pwd = undefined
mkdir_builtin fuel (command ∷ []) pwd = pure tt
mkdir_builtin fuel (command ∷ argument ∷ others) pwd =
    target_path fuel argument pwd >>= λ path. f_mkdir path >> pure tt

unfoldable pub rm_builtin : ℕ → List Text → DirectoryEntry → M (Unit {0})
unfolding target_path
rm_builtin fuel [] pwd = undefined
rm_builtin fuel (command ∷ []) pwd = pure tt
rm_builtin fuel (command ∷ argument ∷ others) pwd =
    target_path fuel argument pwd >>= λ path. f_remove path >> pure tt

unfoldable pub rmdir_builtin : ℕ → List Text → DirectoryEntry → M (Unit {0})
rmdir_builtin fuel [] pwd = undefined
rmdir_builtin fuel (command ∷ []) pwd = pure tt
rmdir_builtin fuel (command ∷ argument ∷ others) pwd = convert_absolute fuel argument pwd >>= λ r.
    followed r >>= λ path.
    f_rmdir fuel path >>= λ e. elim e [ none ↦ pure tt | some ent ↦ free_opened path ]

-- `pwd_directory` is set to the destination, and not changed where there is none.
unfoldable pub goto_root : DirectoryEntry → M (Option DirectoryEntry)
goto_root pwd = goto_destination (b'/' ∷ []) pwd >>= λ r. elim r [
  | none ↦ pure (some pwd)
  | some d ↦ pure (some d)
]

-- The new `pwd_directory`, which may be NULL.
unfoldable pub cd_builtin : ℕ → List Text → DirectoryEntry → M (Option DirectoryEntry)
unfolding goto_root
cd_builtin fuel [] pwd = undefined
cd_builtin fuel (command ∷ []) pwd = goto_root pwd
cd_builtin fuel (command ∷ argument ∷ others) pwd = goto_destination argument pwd

unfoldable pub pwd_builtin : ℕ → DirectoryEntry → M (Option Text)
pwd_builtin fuel pwd = convert_absolute fuel (c_string pwd.filename) pwd

-- The entries from the position on.
unfoldable pub rest_of_entries : ℕ → ℤ → M (List DirectoryEntry)
rest_of_entries zero fd = undefined
rest_of_entries (suc fuel) fd = f_readdir fd >>= λ r. elim r [
  | none ↦ pure []
  | some entry ↦ rest_of_entries fuel fd >>= λ entries. pure (entry ∷ entries)
]

-- All entries but the first two, of the directory at a descriptor.
unfoldable pub listed_entries : ℕ → ℤ → M (List DirectoryEntry)
unfolding rest_of_entries
listed_entries fuel fd = f_readdir fd >> f_readdir fd >> rest_of_entries fuel fd

-- A line of ls: a name, with a '/' behind a directory's for -F.
pub data Line : Type 0 where
  name : Text → Line
  name_with_slash : Text → Line

unfoldable pub name_lines : List DirectoryEntry → List Line
name_lines [] = []
name_lines (e ∷ es) = name (c_string e.filename) ∷ name_lines es

-- The inodes are read between the entries; a read changes nothing, so they are read behind them.
unfoldable pub marked_lines : List DirectoryEntry → M (List Line)
marked_lines [] = pure []
marked_lines (e ∷ es) = do
  node ← get_inode e.inode_index
  lines ← marked_lines es
  let text = c_string e.filename
  pure ((if node.type ==ℤ dir then name_with_slash text else name text) ∷ lines)

-- With -l `f_stat` writes to a buffer of `sizeof(stat)`, the size of a function, which is 1; only the
-- heading is printed where there is no entry.
unfoldable pub long_lines : List DirectoryEntry → M (List Line)
long_lines [] = pure []
long_lines (e ∷ es) = get_inode e.inode_index >> undefined

-- The slot of the directory, at its start.
unfoldable pub listed_slot : DirectoryEntry → M ℤ
listed_slot pwd = do
  node ← get_inode pwd.inode_index
  fd ← addto_file_table node Access.append
  f_rewind fd
  pure fd

-- `none` is FALSE. The fuel is the number of entries and one at most.
unfoldable pub ls_builtin : ℕ → List Text → DirectoryEntry → M (Option (List Line))
unfolding listed_slot listed_entries name_lines marked_lines long_lines
ls_builtin fuel [] pwd = pure none
ls_builtin fuel (command ∷ []) pwd = do
  fd ← listed_slot pwd
  entries ← listed_entries fuel fd
  pure (some (name_lines entries))
ls_builtin fuel (command ∷ flag ∷ []) pwd =
    if text_eq (b'-' ∷ b'F' ∷ []) flag
    then (do
      fd ← listed_slot pwd
      entries ← listed_entries fuel fd
      lines ← marked_lines entries
      pure (some lines))
    else if text_eq (b'-' ∷ b'l' ∷ []) flag
    then (do
      listed_slot pwd
      node ← get_inode pwd.inode_index
      fd ← addto_file_table node Access.append
      entries ← listed_entries fuel fd
      lines ← long_lines entries
      pure (some lines))
    else pure none
ls_builtin fuel (command ∷ flag ∷ more ∷ others) pwd = pure none
