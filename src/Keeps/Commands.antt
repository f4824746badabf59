-- ===== src/Keeps/Commands.antt =====
-- The shell's commands on the mounted disk keep what Keeps says.
use file_system_project.Prelude.{ℕ, zero, suc, Bool, Option, none, some, List, [], ◌∷◌}
use file_system_project.Prelude.Int.{ℤ}
use file_system_project.Layout.{DirectoryEntry}
use file_system_project.Access
use file_system_project.Memory.{Memory}
use file_system_project.Store.{FileSystem, pure}
use file_system_project.Parser.{Job, apnd, overwrite, input, no_redirection}
use file_system_project.Shell.Redirect.{store_output, redirect}
use file_system_project.Text.{Text}
use file_system_project.Shell.FileCommands.{
  path_in, target_path, mkdir_builtin, rm_builtin, rmdir_builtin, goto_root, cd_builtin,
  pwd_builtin, rest_of_entries, listed_entries, marked_lines, long_lines, listed_slot, ls_builtin,
}
use file_system_project.Shell.Show.{
  shown_path, cat_slot, cat_file, cat_files, cat_builtin, more_pages, more_slot, more_file,
  more_files, more_builtin,
}
use file_system_project.Keeps.{
  IsReady, IsReady-IsBesideTable, IsBesideTable, Keeps, keeps_rules, Keeps-pure, Keeps-undefined,
  Keeps-bind, Keeps-elim,
}
use file_system_project.Keeps.Table.{table_rules, Keeps-get_inode}
use file_system_project.Keeps.Directory.{
  Keeps-nat, Keeps-f_readdir, Keeps-f_mkdir, Keeps-free_opened,
}
use file_system_project.Keeps.Files.{Keeps-f_open, Keeps-f_open-read, Keeps-f_read, Keeps-f_write}
use file_system_project.Keeps.Remove.{Keeps-f_remove, Keeps-f_rmdir}
use file_system_project.Keeps.Paths.{
  Keeps-followed, Keeps-either, Keeps-goto_destination, Keeps-convert_absolute,
}

module _ {P : FileSystem → Type 0} ⦃o : IsBesideTable P⦄ where
  Keeps-path_in :
      (fuel : ℕ) (pwd : DirectoryEntry) (target : Option (Text × Text))
      → Keeps P (path_in fuel pwd target)
  unfolding path_in
  Keeps-path_in fuel pwd target =
      search (keeps_rules, Keeps-followed, Keeps-convert_absolute) depth 12

  Keeps-target_path :
      (fuel : ℕ) (argument : Text) (pwd : DirectoryEntry) → Keeps P (target_path fuel argument pwd)
  unfolding target_path
  Keeps-target_path fuel argument pwd = Keeps-path_in fuel pwd _

module _ {d : ℕ} where
  pub Keeps-mkdir_builtin :
      (fuel : ℕ) (args : List Text) (pwd : DirectoryEntry)
      → Keeps (IsReady d) (mkdir_builtin fuel args pwd)
  unfolding mkdir_builtin
  Keeps-mkdir_builtin fuel [] pwd = Keeps-undefined
  Keeps-mkdir_builtin fuel (c ∷ []) pwd = Keeps-pure tt
  Keeps-mkdir_builtin fuel (c ∷ a ∷ as') pwd =
      search (keeps_rules, Keeps-target_path, Keeps-f_mkdir) depth 12

  pub Keeps-rm_builtin :
      (fuel : ℕ) (args : List Text) (pwd : DirectoryEntry)
      → Keeps (IsReady d) (rm_builtin fuel args pwd)
  unfolding rm_builtin
  Keeps-rm_builtin fuel [] pwd = Keeps-undefined
  Keeps-rm_builtin fuel (c ∷ []) pwd = Keeps-pure tt
  Keeps-rm_builtin fuel (c ∷ a ∷ as') pwd =
      search (keeps_rules, Keeps-target_path, Keeps-f_remove) depth 12

  pub Keeps-rmdir_builtin :
      (fuel : ℕ) (args : List Text) (pwd : DirectoryEntry)
      → Keeps (IsReady d) (rmdir_builtin fuel args pwd)
  unfolding rmdir_builtin
  Keeps-rmdir_builtin fuel [] pwd = Keeps-undefined
  Keeps-rmdir_builtin fuel (c ∷ []) pwd = Keeps-pure tt
  Keeps-rmdir_builtin fuel (c ∷ a ∷ as') pwd =
      Keeps-bind _ _ (Keeps-convert_absolute fuel a pwd) λ r.
        Keeps-bind _ _ (Keeps-followed r) λ path.
          Keeps-bind _ _ (Keeps-f_rmdir fuel path)
            λ e. Keeps-elim e _ _ (Keeps-pure tt) λ ent. Keeps-free_opened path

module _ {P : FileSystem → Type 0} ⦃o : IsBesideTable P⦄ where
  Keeps-goto_root : (pwd : DirectoryEntry) → Keeps P (goto_root pwd)
  unfolding goto_root
  Keeps-goto_root pwd =
      Keeps-bind _ _ (Keeps-goto_destination _ pwd)
        λ r. Keeps-elim r _ _ (Keeps-pure (some pwd)) λ e. Keeps-pure (some e)

  pub Keeps-cd_builtin :
      (fuel : ℕ) (args : List Text) (pwd : DirectoryEntry) → Keeps P (cd_builtin fuel args pwd)
  unfolding cd_builtin
  Keeps-cd_builtin fuel [] pwd = Keeps-undefined
  Keeps-cd_builtin fuel (c ∷ []) pwd = Keeps-goto_root pwd
  Keeps-cd_builtin fuel (c ∷ a ∷ as') pwd = Keeps-goto_destination a pwd

  pub Keeps-pwd_builtin : (fuel : ℕ) (pwd : DirectoryEntry) → Keeps P (pwd_builtin fuel pwd)
  unfolding pwd_builtin
  Keeps-pwd_builtin fuel pwd = Keeps-convert_absolute fuel _ pwd

  Keeps-rest_of_entries : (fuel : ℕ) (fd : ℤ) → Keeps P (rest_of_entries fuel fd)
  unfolding rest_of_entries
  Keeps-rest_of_entries zero fd = Keeps-undefined
  Keeps-rest_of_entries (suc fuel) fd = Keeps-bind _ _ (Keeps-f_readdir fd) λ r.
      Keeps-elim r _ _ (Keeps-pure [])
        λ e. Keeps-bind _ _ (Keeps-rest_of_entries fuel fd) λ es. Keeps-pure (e ∷ es)

  Keeps-listed_entries : (fuel : ℕ) (fd : ℤ) → Keeps P (listed_entries fuel fd)
  unfolding listed_entries
  Keeps-listed_entries fuel fd =
      search (keeps_rules, Keeps-f_readdir, Keeps-rest_of_entries) depth 12

  Keeps-marked_lines : (es : List DirectoryEntry) → Keeps P (marked_lines es)
  unfolding marked_lines
  Keeps-marked_lines [] = Keeps-pure []
  Keeps-marked_lines (e ∷ es) =
      Keeps-bind _ _ (Keeps-get_inode e.inode_index)
        λ node. Keeps-bind _ _ (Keeps-marked_lines es) λ lines. Keeps-pure _

  Keeps-long_lines : (es : List DirectoryEntry) → Keeps P (long_lines es)
  unfolding long_lines
  Keeps-long_lines [] = Keeps-pure []
  Keeps-long_lines (e ∷ es) = search table_rules depth 12

  Keeps-listed_slot : (pwd : DirectoryEntry) → Keeps P (listed_slot pwd)
  unfolding listed_slot
  Keeps-listed_slot pwd = search table_rules depth 12

  pub Keeps-ls_builtin :
      (fuel : ℕ) (args : List Text) (pwd : DirectoryEntry) → Keeps P (ls_builtin fuel args pwd)
  unfolding ls_builtin
  Keeps-ls_builtin fuel [] pwd = Keeps-pure none
  Keeps-ls_builtin fuel (c ∷ []) pwd =
      search (table_rules, Keeps-listed_slot, Keeps-listed_entries) depth 12
  Keeps-ls_builtin fuel (c ∷ flag ∷ []) pwd =
      search
        (table_rules, Keeps-listed_slot, Keeps-listed_entries, Keeps-marked_lines, Keeps-long_lines)
        depth 20
  Keeps-ls_builtin fuel (c ∷ flag ∷ m ∷ others) pwd = Keeps-pure none

  Keeps-shown_path :
      (fuel : ℕ) (argument : Text) (pwd : DirectoryEntry) → Keeps P (shown_path fuel argument pwd)
  unfolding shown_path
  Keeps-shown_path fuel argument pwd = Keeps-path_in fuel pwd _

  pub Keeps-cat_slot : (argument : Text) (fd : ℤ) → Keeps P (cat_slot argument fd)
  unfolding cat_slot
  Keeps-cat_slot argument fd =
      search (table_rules, Keeps-followed, Keeps-nat, Keeps-f_read) depth 20

  Keeps-cat_file :
      (fuel : ℕ) (argument : Text) (pwd : DirectoryEntry) → Keeps P (cat_file fuel argument pwd)
  unfolding cat_file
  Keeps-cat_file fuel argument pwd =
      search (keeps_rules, Keeps-shown_path, Keeps-f_open-read, Keeps-cat_slot) depth 12

  Keeps-cat_files :
      (fuel : ℕ) (arguments : List Text) (pwd : DirectoryEntry)
      → Keeps P (cat_files fuel arguments pwd)
  unfolding cat_files
  Keeps-cat_files fuel [] pwd = Keeps-pure []
  Keeps-cat_files fuel (a ∷ as') pwd =
      search (keeps_rules, Keeps-cat_file, Keeps-cat_files fuel as') depth 12

  pub Keeps-cat_builtin :
      (fuel : ℕ) (args : List Text) (stdin : Text) (pwd : DirectoryEntry)
      → Keeps P (cat_builtin fuel args stdin pwd)
  unfolding cat_builtin
  Keeps-cat_builtin fuel [] stdin pwd = Keeps-pure []
  Keeps-cat_builtin fuel (c ∷ []) stdin pwd = Keeps-pure _
  Keeps-cat_builtin fuel (c ∷ a ∷ as') stdin pwd = Keeps-cat_files fuel (a ∷ as') pwd

  Keeps-more_pages :
      (fuel : ℕ) (fd read_size file_size : ℤ) → Keeps P (more_pages fuel fd read_size file_size)
  unfolding more_pages
  Keeps-more_pages zero fd read_size file_size = Keeps-undefined
  Keeps-more_pages (suc fuel) fd read_size file_size =
      search (keeps_rules, Keeps-nat, Keeps-f_read, Keeps-more_pages fuel fd) depth 20

  Keeps-more_slot :
      (header : Bool) (argument : Text) (fd : ℤ) → Keeps P (more_slot header argument fd)
  unfolding more_slot
  Keeps-more_slot header argument fd =
      search (table_rules, Keeps-followed, Keeps-more_pages) depth 20

  Keeps-more_file :
      (fuel : ℕ) (header : Bool) (argument : Text) (pwd : DirectoryEntry)
      → Keeps P (more_file fuel header argument pwd)
  unfolding more_file
  Keeps-more_file fuel header argument pwd =
      search (keeps_rules, Keeps-shown_path, Keeps-f_open-read, Keeps-more_slot) depth 12

  Keeps-more_files :
      (fuel : ℕ) (header : Bool) (arguments : List Text) (pwd : DirectoryEntry)
      → Keeps P (more_files fuel header arguments pwd)
  unfolding more_files
  Keeps-more_files fuel header [] pwd = Keeps-pure []
  Keeps-more_files fuel header (a ∷ as') pwd =
      Keeps-bind _ _ (Keeps-more_file fuel header a pwd) λ shown.
        Keeps-either shown.1 _ _
          (Keeps-bind _ _ (Keeps-more_files fuel header as' pwd) λ others. Keeps-pure _)
          (Keeps-pure shown.0)

  pub Keeps-more_builtin :
      (fuel : ℕ) (args : List Text) (pwd : DirectoryEntry) → Keeps P (more_builtin fuel args pwd)
  unfolding more_builtin
  Keeps-more_builtin fuel [] pwd = Keeps-pure []
  Keeps-more_builtin fuel (c ∷ []) pwd = Keeps-pure _
  Keeps-more_builtin fuel (c ∷ a ∷ as') pwd = Keeps-more_files fuel _ (a ∷ as') pwd

module _ {d : ℕ} where
  Keeps-store_output :
      (fuel : ℕ) (access : ℤ) (jobs : List Job) (size : ℕ) (output : Memory) (pwd : DirectoryEntry)
      → Keeps (IsReady d) (store_output fuel access jobs size output pwd)
  unfolding store_output
  Keeps-store_output fuel access jobs size output pwd =
      search (table_rules, Keeps-followed, Keeps-shown_path, Keeps-f_open, Keeps-f_write) depth 20

  pub Keeps-redirect :
      (fuel : ℕ) (jobs : List Job) (size : ℕ) (output : Memory) (pwd : DirectoryEntry)
      → Keeps (IsReady d) (redirect fuel jobs size output pwd)
  unfolding redirect
  Keeps-redirect fuel [] size output pwd = Keeps-pure tt
  Keeps-redirect fuel (j ∷ js) size output pwd =
      elim j.run_with_redirection
        as (λ r. Keeps (IsReady d) (elim r [
          | no_redirection ↦ pure tt
          | input ↦ pure tt
          | apnd ↦ store_output fuel Access.append (j ∷ js) size output pwd
          | overwrite ↦ store_output fuel Access.write (j ∷ js) size output pwd
        ])) [
          | no_redirection ↦ Keeps-pure tt
          | input ↦ Keeps-pure tt
          | apnd ↦ Keeps-store_output fuel _ (j ∷ js) size output pwd
          | overwrite ↦ Keeps-store_output fuel _ (j ∷ js) size output pwd
        ]
