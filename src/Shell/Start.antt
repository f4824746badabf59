-- ===== src/Shell/Start.antt =====
-- shell.c: the start of `main`, up to its loop. It mounts the disk "DISK", logs a user in and opens the
-- user's home directory.
use file_system_project.Prelude.{
  ltb, if◌then◌else◌, ℕ, true, false, Option, none, some, [], ◌∷◌, replicate, get_elem?,
}
use file_system_project.Prelude.Int.{pos, negsuc, minus_one}
use file_system_project.Memory.{Memory}
use file_system_project.Layout.{DirectoryEntry}
use file_system_project.Text.{Text, c_string, strcpy}
use file_system_project.Store.{FileSystem}
use file_system_project.Table.{setup_file_table}
use file_system_project.Directory.Open.{f_opendir}
use file_system_project.Mount.{HostFile, MountTable, setup_mounted_disks, f_mount}
use file_system_project.Shell.Login.{User, LoggedIn, logged_in, still_asking, bad_write, login}

abbrev pub disk_to_mount : Text
disk_to_mount = b'D' ∷ b'I' ∷ b'S' ∷ b'K' ∷ []

abbrev pub setup_table : MountTable
setup_table = record { mounted_disks = setup_mounted_disks; current_mounted_disk = minus_one }

-- The bytes that reads of a file give, 0 behind its end.
unfoldable pub held : HostFile → Memory
held file a = if ltb a file.length then file.image a else 0

-- The file table and root_dir_entry as `setup` leaves them, with the current disk.
unfoldable pub setup_state : (Text → Option HostFile) → Memory → MountTable → Option FileSystem
setup_state open_file overread table = elim table.current_mounted_disk [
  | negsuc i ↦ none
  | pos i ↦ elim (get_elem? table.mounted_disks i) [
    | none ↦ none
    | some slot ↦ elim slot.disk_image_ptr [
      | none ↦ none
      | some name ↦ elim (open_file name) [
        | none ↦ none
        | some file ↦ some (record {
          disk_image = held file;
          superblock1 = slot.superblock1;
          file_table = setup_file_table;
          table_freehead = pos 0;
          root_dir_entry = record { inode_index = pos 0; filename = replicate 60 0 };
          root_freed = false;
          overread = overread;
        })
      ]
    ]
  ]
]

-- `main` ends without its loop (EXIT), is at the prompt in a working directory, or still asks for a
-- name or a password.
pub data Started : Type 0 where
  exited : MountTable → Started
  at_prompt : MountTable → User → DirectoryEntry → FileSystem → Text → Started
  waiting : Text → Started

-- The entry is copied to `pwd_directory`, which malloc leaves unset.
unfoldable pub pwd_directory : DirectoryEntry → DirectoryEntry → Option DirectoryEntry
unfolding c_string strcpy
pwd_directory unset entry = elim (strcpy unset.filename (c_string entry.filename)) [
  | none ↦ none
  | some name ↦ some (record { inode_index = entry.inode_index; filename = name })
]

-- Behind `login`; a NULL entry is followed.
unfoldable pub open_home : MountTable → DirectoryEntry → FileSystem → LoggedIn → Option Started
unfolding pwd_directory
open_home table unset s bad_write = none
open_home table unset s (still_asking rest) = some (waiting rest)
open_home table unset s (logged_in user rest) =
    elim (f_opendir user.absolute_path_home_directory s) [
      | none ↦ none
      | some (none, s') ↦ none
      | some (some entry, s') ↦ elim (pwd_directory unset entry) [
        | none ↦ none
        | some pwd ↦ some (at_prompt table user pwd s' rest)
      ]
    ]

-- The host's files, what the memory holds (`overread` of the state, and `pwd_directory` before it is
-- set), the rounds of `login` and its input.
unfoldable pub start :
    (Text → Option HostFile) → Memory → DirectoryEntry → ℕ → Text → Option Started
unfolding setup_state open_home
start open_file overread unset fuel stdin = elim (f_mount open_file disk_to_mount setup_table) [
  | none ↦ none
  | some ((false, mid), table) ↦ some (exited table)
  | some ((true, mid), table) ↦ elim (setup_state open_file overread table) [
    | none ↦ none
    | some s ↦ open_home table unset s (login fuel stdin)
  ]
]
