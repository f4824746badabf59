-- ===== src/Shell/Started.antt =====
-- The start of the shell on a disk that format.c wrote.
use mathlib.Core.Path.{subst}
use file_system_project.Prelude.{
  inl, inr, Bool, Option-cases, ℕ, zero, suc, ◌≤◌, ◌<◌, ◌≡◌, refl, ap, ◌∙◌, Option, none, some, [],
  ◌∷◌, arith, if◌then◌else◌, replicate, length, drop, true, false,
}
use file_system_project.Prelude.Int.{pos}
use file_system_project.Memory.{Memory}
use file_system_project.Layout.{DirectoryEntry}
use file_system_project.Text.{Text, text_eq, c_string, strcpy, strtok}
use file_system_project.Store.{FileSystem}
use file_system_project.Table.{setup_file_table, update_freehead, find_next_freehead, first_entry}
use file_system_project.Disk.Geometry.{IsMounted}
use file_system_project.Directory.Open.{f_opendir, walk}
use file_system_project.Directory.OpenChild.{at_root, f_opendir-at_root, root_name}
use file_system_project.Format.{write_disk, formatted_superblock, num_blocks_for_inodes}
use file_system_project.Mount.{
  HostFile, MountTable, setup_mounted_disks, first_free_location_in_mount, free_spot_from, f_mount,
  zero_superblock,
}
use file_system_project.Mount.Formatted.{mounted, f_mount-f_unmount}
use file_system_project.Shell.Login.{
  User, LoggedIn, logged_in, still_asking, bad_write, login, login_round, ask_password, read_answer,
  ask_again, super_user, basic_user, is_password, is_name,
}
use file_system_project.Shell.Start.{
  held, disk_to_mount, setup_table, setup_state, at_prompt, pwd_directory, open_home, start,
}

-- f_opendir of "/" is the root.
module _ {d : ℕ} {s : FileSystem} (v : IsMounted d s) (empty : s.file_table ≡ setup_file_table)
    (one : 1 ≤ d) (live : s.root_freed ≡ false) where
  f_opendir-slash : f_opendir (b'/' ∷ []) s ≡ some (some (root_name s.root_dir_entry), at_root s 0)
  unfolding walk strtok update_freehead find_next_freehead first_entry setup_file_table
  f_opendir-slash = f_opendir-at_root v empty (omega arith) live (b'/' ∷ []) ∙ refl

-- Whoever is logged in lives in the root.
abbrev LivesInRoot : LoggedIn → Type 0
LivesInRoot (logged_in user rest) = user.absolute_path_home_directory ≡ b'/' ∷ []
LivesInRoot (still_asking rest) = Unit {0}
LivesInRoot bad_write = Unit {0}

super_or_basic :
    (b : Bool) → (if b then super_user else basic_user).absolute_path_home_directory ≡ b'/' ∷ []
super_or_basic true = refl
super_or_basic false = refl

let_in :
    (b : Bool) (user : User) (rest : Text)
    → user.absolute_path_home_directory ≡ b'/' ∷ []
    → LivesInRoot (if b then logged_in user rest else still_asking rest)
let_in true user rest h = h
let_in false user rest h = tt

ask_password-LivesInRoot : (stdin : Text) → LivesInRoot (ask_password stdin)
unfolding ask_password
ask_password-LivesInRoot stdin = elim (Option-cases (read_answer stdin)) [
  | inl e ↦ rw (e, ask_password) tt
  | inr ((password, rest), e) ↦
      rw (e, ask_password)
        (let_in (is_password password) _ rest
          (super_or_basic (text_eq super_user.password password)))
]

named_or_not :
    (b : Bool) (rest : Text) → LivesInRoot (if b then ask_password rest else still_asking rest)
named_or_not true rest = ask_password-LivesInRoot rest
named_or_not false rest = tt

login_round-LivesInRoot : (stdin : Text) → LivesInRoot (login_round stdin)
unfolding login_round
login_round-LivesInRoot stdin = elim (Option-cases (read_answer stdin)) [
  | inl e ↦ rw (e, login_round) tt
  | inr ((name, rest), e) ↦ rw (e, login_round) (named_or_not (is_name name) rest)
]

ask_again-LivesInRoot :
    (next : Text → LoggedIn) (r : LoggedIn)
    → ((rest : Text) → LivesInRoot (next rest))
    → LivesInRoot r
    → LivesInRoot (ask_again next r)
ask_again-LivesInRoot next (logged_in user rest) again h = h
ask_again-LivesInRoot next (still_asking rest) again h = again rest
ask_again-LivesInRoot next bad_write again h = tt

login-LivesInRoot : (fuel : ℕ) (stdin : Text) → LivesInRoot (login fuel stdin)
unfolding login
login-LivesInRoot zero stdin = tt
login-LivesInRoot (suc fuel) stdin =
    ask_again-LivesInRoot (login fuel) (login_round stdin) (login-LivesInRoot fuel)
      (login_round-LivesInRoot stdin)

-- The file system that the shell starts with.
abbrev pub formatted_state : ℕ → ℕ → Memory → FileSystem
formatted_state mb n overread = record {
  disk_image = held (record { image = write_disk mb; length = n });
  superblock1 = formatted_superblock (num_blocks_for_inodes mb);
  file_table = setup_file_table;
  table_freehead = pos 0;
  root_dir_entry = record { inode_index = pos 0; filename = replicate 60 0 };
  root_freed = false;
  overread = overread;
}

module _ (mb : ℕ) (small : mb ≤ 16) (one : 1 ≤ mb) (open_file : Text → Option HostFile) (n : ℕ)
    (there : open_file disk_to_mount ≡ some (record { image = write_disk mb; length = n }))
    (whole : 536 ≤ n) (short : n < 2147483648) (overread : Memory) where
  abbrev table : MountTable
  table = mounted mb small open_file disk_to_mount n setup_table 0

  setup_state-formatted :
      setup_state open_file overread table ≡ some (formatted_state mb n overread)
  unfolding setup_state setup_mounted_disks
  setup_state-formatted = rw there refl

  f_mount-formatted :
      f_mount open_file disk_to_mount setup_table ≡ some ((true, some (pos 0)), table)
  unfolding first_free_location_in_mount free_spot_from setup_mounted_disks
  f_mount-formatted =
      (f_mount-f_unmount mb small open_file disk_to_mount n setup_table 0
        (record { free_spot = true; disk_image_ptr = none; superblock1 = zero_superblock }) there
        whole short refl refl (omega arith)).0

  formatted-IsMounted : IsMounted (num_blocks_for_inodes mb) (formatted_state mb n overread)
  formatted-IsMounted = record {
    size = refl;
    inode_offset = refl;
    data_offset = refl;
    small = omega arith;
  }

  -- With a disk of 1 to 16 MB that format.c wrote as the host's file DISK, of 536 bytes to 2 GB, and
  -- once login has let in a user: main starts its loop with that user, in the root directory, with
  -- the disk mounted in slot 0 of the mount table, the root open in slot 0 of the file table and no
  -- other file open.
  pub start-formatted :
      (unset : DirectoryEntry) (fuel : ℕ) (stdin rest : Text) (user : User)
      → length unset.filename ≡ 60
      → login fuel stdin ≡ logged_in user rest
      → (pwd : DirectoryEntry) × (start open_file overread unset fuel stdin
          ≡ some (at_prompt table user pwd (at_root (formatted_state mb n overread) 0) rest))
        × (pwd.inode_index ≡ pos 0)
        × (c_string pwd.filename ≡ b'/' ∷ [])
  unfolding start open_home pwd_directory c_string strcpy
  start-formatted unset fuel stdin rest user long logged = (
    record { inode_index = pos 0; filename = b'/' ∷ 0 ∷ drop 2 unset.filename },
    rw
        (
          start,
          f_mount-formatted,
          setup_state-formatted,
          logged,
          open_home,
          ap (λ p. f_opendir p (formatted_state mb n overread))
                (subst LivesInRoot logged (login-LivesInRoot fuel stdin))
              ∙ f_opendir-slash formatted-IsMounted refl (omega arith) refl,
          long,
        )
        refl,
    refl,
    refl,
  )
