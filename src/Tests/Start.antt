-- ===== src/Tests/Start.antt =====
-- The start of the shell on a disk of one megabyte, for the user "super".
use file_system_project.Prelude.{
  ◌≡◌, refl, Option, none, some, [], ◌∷◌, arith, replicate, if◌then◌else◌,
}
use file_system_project.Prelude.Int.{pos}
use file_system_project.Memory.{cleared}
use file_system_project.Layout.{DirectoryEntry}
use file_system_project.Text.{Text, text_eq, c_string}
use file_system_project.Parser.{without_last}
use file_system_project.Format.{write_disk}
use file_system_project.Mount.{HostFile}
use file_system_project.Mount.Formatted.{mounted}
use file_system_project.Directory.OpenChild.{at_root}
use file_system_project.Shell.Login.{
  super_user, logged_in, login, login_round, ask_password, read_answer, fgets,
}
use file_system_project.Shell.Start.{disk_to_mount, setup_table, start, at_prompt}
use file_system_project.Shell.Started.{formatted_state, start-formatted}

-- The host has the file DISK.
abbrev files : Text → Option HostFile
files name =
    if text_eq name disk_to_mount
    then some (record { image = write_disk 1; length = 1000000 })
    else none

files-disk : files disk_to_mount ≡ some (record { image = write_disk 1; length = 1000000 })
unfolding text_eq
files-disk = refl

abbrev answers : Text
answers = b's' ∷ b'u' ∷ b'p' ∷ b'e' ∷ b'r' ∷ 10 ∷ b's' ∷ b'u' ∷ b's' ∷ b'e' ∷ b'r' ∷ 10 ∷ []

logs_in : login 1 answers ≡ logged_in super_user []
unfolding login login_round ask_password read_answer fgets c_string without_last text_eq
logs_in = refl

abbrev unset : DirectoryEntry
unset = record { inode_index = pos 7; filename = replicate 60 b'x' }

start-formatted_example :
    (pwd : DirectoryEntry) × (start files cleared unset 1 answers
      ≡ some (
          at_prompt
            (mounted 1 (omega arith) files disk_to_mount 1000000 setup_table 0)
            super_user
            pwd
            (at_root (formatted_state 1 1000000 cleared) 0)
            []))
    × (pwd.inode_index ≡ pos 0)
    × (c_string pwd.filename ≡ b'/' ∷ [])
start-formatted_example =
    start-formatted 1 (omega arith) (omega arith) files 1000000 files-disk (omega arith)
      (omega arith) cleared unset 1 answers [] super_user refl logs_in
