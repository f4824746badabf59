-- ===== src/Shell/Show.antt =====
-- shell.c: cat and more. What they print is a result; the keys that more waits for are taken to come.
use file_system_project.Prelude.{
  ℕ, zero, suc, ◌+◌, ◌/◌, Bool, true, false, List, [], ◌∷◌, ◌++◌, ltb, if◌then◌else◌, length,
}
use file_system_project.Prelude.Int.{ℤ, pos, negsuc, minus_one, ◌-ℤ◌, ltb_ℤ, leb_ℤ, ◌==ℤ◌}
use file_system_project.Access
use file_system_project.Memory.{Memory, cleared}
use file_system_project.Layout.{DirectoryEntry, block_size, dir}
use file_system_project.Store.{M, pure, undefined, ◌>>=◌, ◌>>◌}
use file_system_project.Table.{f_close, get_table_entry}
use file_system_project.Directory.{nat}
use file_system_project.File.Open.{f_open}
use file_system_project.File.Read.{f_read}
use file_system_project.Text.{Text, is_slash, strtok, split_last}
use file_system_project.Shell.Paths.{followed}
use file_system_project.Shell.FileCommands.{parent_path, path_in}

-- A piece of what is printed. `contents` is a `write` of that many bytes of a buffer.
pub data Shown : Type 0 where
  contents : ℕ → Memory → Shown
  is_directory : Text → Shown
  not_opened : Text → Shown
  heading : Text → Shown
  sizes : ℤ → ℤ → Shown
  space_awaited : Shown
  copied : ℕ → Shown
  bad_usage : Shown

-- The path of an argument is always built as a relative one.
unfoldable pub shown_path : ℕ → Text → DirectoryEntry → M Text
shown_path fuel argument pwd =
    path_in fuel pwd (parent_path true (split_last (strtok is_slash argument)))

-- What `cat` does with a slot that it has opened.
unfoldable pub cat_slot : Text → ℤ → M Shown
cat_slot argument fd = get_table_entry fd >>= λ e. followed e >>= λ t.
    if t.file_inode.type ==ℤ dir then pure (is_directory argument) else do
      n ← nat t.file_inode.size
      r ← f_read cleared t.file_inode.size (pos 1) fd
      f_close fd
      pure (contents n r.1)

unfoldable pub cat_file : ℕ → Text → DirectoryEntry → M Shown
unfolding shown_path cat_slot
cat_file fuel argument pwd = shown_path fuel argument pwd >>= λ path.
    f_open path Access.read >>= λ fd.
    if fd ==ℤ minus_one then pure (not_opened argument) else cat_slot argument fd

unfoldable pub cat_files : ℕ → List Text → DirectoryEntry → M (List Shown)
unfolding cat_file
cat_files fuel [] pwd = pure []
cat_files fuel (argument ∷ arguments) pwd = cat_file fuel argument pwd >>= λ shown.
    cat_files fuel arguments pwd >>= λ others. pure (shown ∷ others)

-- `while (read(STDIN_FILENO, &c, 1) > 0)`: each character is written as it is.
unfoldable pub copy_input : Text → List Shown
copy_input [] = []
copy_input (c ∷ cs) = copied c ∷ copy_input cs

unfoldable pub cat_builtin : ℕ → List Text → Text → DirectoryEntry → M (List Shown)
unfolding cat_files copy_input
cat_builtin fuel [] stdin pwd = pure []
cat_builtin fuel (command ∷ []) stdin pwd = pure (copy_input stdin)
cat_builtin fuel (command ∷ argument ∷ others) stdin pwd = cat_files fuel (argument ∷ others) pwd

-- `while (file_size > 0)`, on fuel: a page of at most `read_size` bytes in each round.
unfoldable pub more_pages : ℕ → ℤ → ℤ → ℤ → M (List Shown)
more_pages zero fd read_size file_size = undefined
more_pages (suc fuel) fd read_size file_size =
    let size = if leb_ℤ file_size read_size then file_size else read_size in
    let left = file_size -ℤ size in
    let round = nat size >>= λ n. f_read cleared size (pos 1) fd >>= λ r.
    more_pages fuel fd size left >>= λ pages. pure (
      sizes file_size size
      ∷ contents n r.1
      ∷ (if ltb_ℤ (pos 0) left then space_awaited ∷ pages else pages)) in
    if ltb_ℤ (pos 0) file_size then round else pure []

-- A page for each block, and the end.
unfoldable pub page_fuel : ℤ → ℕ
page_fuel (pos n) = suc ((n + 511) / 512)
page_fuel (negsuc n) = 1

-- With the result FALSE `more` returns at once. `header` is set if there is more than one file.
unfoldable pub more_slot : Bool → Text → ℤ → M (List Shown × Bool)
unfolding more_pages page_fuel
more_slot header argument fd = get_table_entry fd >>= λ e. followed e >>= λ t.
    if t.file_inode.type ==ℤ dir then pure (is_directory argument ∷ [], false) else do
      let size = t.file_inode.size
      pages ← more_pages (page_fuel size) fd (pos block_size) size
      f_close fd
      pure (if header then heading argument ∷ pages else pages, true)

unfoldable pub more_file : ℕ → Bool → Text → DirectoryEntry → M (List Shown × Bool)
unfolding more_slot
more_file fuel header argument pwd = shown_path fuel argument pwd >>= λ path.
    f_open path Access.read >>= λ fd.
    if fd ==ℤ minus_one
    then pure (not_opened argument ∷ [], false)
    else more_slot header argument fd

unfoldable pub more_files : ℕ → Bool → List Text → DirectoryEntry → M (List Shown)
unfolding more_file
more_files fuel header [] pwd = pure []
more_files fuel header (argument ∷ arguments) pwd = more_file fuel header argument pwd >>= λ shown.
    elim shown.1 [
      | false ↦ pure shown.0
      | true ↦ more_files fuel header arguments pwd >>= λ others. pure (shown.0 ++ others)
    ]

unfoldable pub more_builtin : ℕ → List Text → DirectoryEntry → M (List Shown)
unfolding more_files
more_builtin fuel [] pwd = pure []
more_builtin fuel (command ∷ []) pwd = pure (bad_usage ∷ [])
more_builtin fuel (command ∷ arguments) pwd =
    more_files fuel (ltb 2 (length (command ∷ arguments))) arguments pwd
