-- ===== src/Shell/Redirect.antt =====
-- shell.c: what main does with the output of a command that was redirected. `output` is what the
-- command left in output.txt, `size` the length of that file.
use file_system_project.Prelude.{ℕ, Option, none, List, [], ◌∷◌, if◌then◌else◌, get_elem?}
use file_system_project.Prelude.Int.{ℤ, pos, minus_one, ◌==ℤ◌}
use file_system_project.Memory.{Memory}
use file_system_project.Access
use file_system_project.Layout.{DirectoryEntry}
use file_system_project.Store.{M, pure, ◌>>=◌, ◌>>◌}
use file_system_project.Table.{f_close}
use file_system_project.File.Open.{f_open}
use file_system_project.File.Write.{f_write}
use file_system_project.Text.{Text}
use file_system_project.Parser.{Job, apnd, overwrite, input, no_redirection}
use file_system_project.Shell.Paths.{followed}
use file_system_project.Shell.Show.{shown_path}

-- The first argument of the last job; `none` where a NULL pointer is read.
unfoldable pub last_target : List Job → Option Text
last_target [] = none
last_target (j ∷ []) = elim j.processes [ [] ↦ none | p ∷ ps ↦ get_elem? p.args 0 ]
last_target (j ∷ k ∷ js) = last_target (k ∷ js)

-- The whole output goes to the file, which is opened with `access`.
unfoldable pub store_output : ℕ → ℤ → List Job → ℕ → Memory → DirectoryEntry → M (Unit {0})
unfolding last_target
store_output fuel access jobs size output pwd = followed (last_target jobs) >>= λ target.
    shown_path fuel target pwd >>= λ path. f_open path access >>= λ fd.
    if fd ==ℤ minus_one
    then pure tt
    else (f_write output (pos size) (pos 1) fd >> f_close fd >> pure tt)

-- What the redirection of the first job does to the disk when the command has run.
unfoldable pub redirect : ℕ → List Job → ℕ → Memory → DirectoryEntry → M (Unit {0})
unfolding store_output
redirect fuel [] size output pwd = pure tt
redirect fuel (j ∷ js) size output pwd = elim j.run_with_redirection [
  | no_redirection ↦ pure tt
  | input ↦ pure tt
  | apnd ↦ store_output fuel Access.append (j ∷ js) size output pwd
  | overwrite ↦ store_output fuel Access.write (j ∷ js) size output pwd
]
