-- ===== src/Keeps/ReadOnly.antt =====
-- The calls of filesystem.c and the shell's commands that only read the mounted disk.
use file_system_project.Prelude.{ℕ, ◌≡◌, refl, ap, Bool, Option, some, List}
use file_system_project.Prelude.Int.{ℤ}
use file_system_project.Memory.{Memory}
use file_system_project.Layout.{DirectoryEntry, Superblock}
use file_system_project.Text.{Text}
use file_system_project.Access
use file_system_project.Store.{FileSystem}
use file_system_project.Table.{f_close, f_rewind, f_seek, f_closedir, DirectoryPointer}
use file_system_project.Directory.{f_readdir}
use file_system_project.Directory.Open.{f_opendir}
use file_system_project.File.Open.{f_open}
use file_system_project.File.Read.{f_read}
use file_system_project.Shell.FileCommands.{Line, cd_builtin, pwd_builtin, ls_builtin}
use file_system_project.Shell.Show.{Shown, cat_builtin, more_builtin}
use file_system_project.Keeps.{IsBesideTable}
use file_system_project.Keeps.Table.{Keeps-f_close, Keeps-f_rewind, Keeps-f_seek, Keeps-f_closedir}
use file_system_project.Keeps.Directory.{Keeps-f_readdir, Keeps-f_opendir}
use file_system_project.Keeps.Files.{Keeps-f_open-read, Keeps-f_read}
use file_system_project.Keeps.Commands.{
  Keeps-cd_builtin, Keeps-pwd_builtin, Keeps-ls_builtin, Keeps-cat_builtin, Keeps-more_builtin,
}

-- One call that only reads, and returns: one that runs into undefined behaviour, such as a use of
-- root_dir_entry once it is freed, is no such call. A file is opened with the access READ. An entry of
-- its own that f_closedir is given is a live object.
pub data Look (s s' : FileSystem) : Type 0 where
  open_file : {fd : ℤ} (path : Text) → f_open path Access.read s ≡ some (fd, s') → Look s s'
  close_file : {r : Bool} (fd : ℤ) → f_close fd s ≡ some (r, s') → Look s s'
  rewind_file : {r : Bool} (fd : ℤ) → f_rewind fd s ≡ some (r, s') → Look s s'
  seek_file :
      {r : Bool} (fd offset whence : ℤ) → f_seek fd offset whence s ≡ some (r, s') → Look s s'
  read_file :
      {r : ℤ × Memory} (b : Memory) (size n fd : ℤ)
      → f_read b size n fd s ≡ some (r, s')
      → Look s s'
  open_dir : {r : Option DirectoryEntry} (path : Text) → f_opendir path s ≡ some (r, s') → Look s s'
  read_dir : {r : Option DirectoryEntry} (fd : ℤ) → f_readdir fd s ≡ some (r, s') → Look s s'
  close_dir : {r : Bool} (e : DirectoryPointer) → f_closedir e s ≡ some (r, s') → Look s s'
  cd_command :
      {r : Option DirectoryEntry} (fuel : ℕ) (args : List Text) (pwd : DirectoryEntry)
      → cd_builtin fuel args pwd s ≡ some (r, s')
      → Look s s'
  pwd_command :
      {r : Option Text} (fuel : ℕ) (pwd : DirectoryEntry)
      → pwd_builtin fuel pwd s ≡ some (r, s')
      → Look s s'
  ls_command :
      {r : Option (List Line)} (fuel : ℕ) (args : List Text) (pwd : DirectoryEntry)
      → ls_builtin fuel args pwd s ≡ some (r, s')
      → Look s s'
  cat_command :
      {r : List Shown} (fuel : ℕ) (args : List Text) (stdin : Text) (pwd : DirectoryEntry)
      → cat_builtin fuel args stdin pwd s ≡ some (r, s')
      → Look s s'
  more_command :
      {r : List Shown} (fuel : ℕ) (args : List Text) (pwd : DirectoryEntry)
      → more_builtin fuel args pwd s ≡ some (r, s')
      → Look s s'

-- Any number of such calls.
pub data Looks (s : FileSystem) : FileSystem → Type 0 where
  here : Looks s s
  next : {s1 s2 : FileSystem} → Looks s s1 → Look s1 s2 → Looks s s2

Look-keeps :
    (P : FileSystem → Type 0) ⦃o : IsBesideTable P⦄ {s s' : FileSystem} → P s → Look s s' → P s'
Look-keeps P v (open_file path h) = (Keeps-f_open-read {P = P} path).after v h
Look-keeps P v (close_file fd h) = (Keeps-f_close {P = P} fd).after v h
Look-keeps P v (rewind_file fd h) = (Keeps-f_rewind {P = P} fd).after v h
Look-keeps P v (seek_file fd offset whence h) = (Keeps-f_seek {P = P} fd offset whence).after v h
Look-keeps P v (read_file b size n fd h) = (Keeps-f_read {P = P} b size n fd).after v h
Look-keeps P v (open_dir path h) = (Keeps-f_opendir {P = P} path).after v h
Look-keeps P v (read_dir fd h) = (Keeps-f_readdir {P = P} fd).after v h
Look-keeps P v (close_dir e h) = (Keeps-f_closedir {P = P} e).after v h
Look-keeps P v (cd_command fuel args pwd h) = (Keeps-cd_builtin {P = P} fuel args pwd).after v h
Look-keeps P v (pwd_command fuel pwd h) = (Keeps-pwd_builtin {P = P} fuel pwd).after v h
Look-keeps P v (ls_command fuel args pwd h) = (Keeps-ls_builtin {P = P} fuel args pwd).after v h
Look-keeps P v (cat_command fuel args stdin pwd h) =
    (Keeps-cat_builtin {P = P} fuel args stdin pwd).after v h
Look-keeps P v (more_command fuel args pwd h) = (Keeps-more_builtin {P = P} fuel args pwd).after v h

pub Looks-keeps :
    (P : FileSystem → Type 0) ⦃o : IsBesideTable P⦄ {s s' : FileSystem} → P s → Looks s s' → P s'
Looks-keeps P v here = v
Looks-keeps P v (next before look) = Look-keeps P (Looks-keeps P v before) look

-- The state has this image of the disk and this superblock.
record HasDisk (image : Memory) (sp : Superblock) (s : FileSystem) : Type 0 where
  disk : s.disk_image ≡ image
  superblock : s.superblock1 ≡ sp

instance HasDisk-IsBesideTable :
    {image : Memory} {sp : Superblock} → IsBesideTable (HasDisk image sp)
HasDisk-IsBesideTable = record {
  slots = λ table v h. record { disk = v.disk; superblock = v.superblock };
  freehead = λ h v. record { disk = v.disk; superblock = v.superblock };
  freed = λ v. record { disk = v.disk; superblock = v.superblock };
  root = λ e v. record { disk = v.disk; superblock = v.superblock };
}

-- From any state, whatever calls run and return, in any order and with any arguments, of f_open with
-- the access READ, f_close, f_rewind, f_seek, f_read, f_opendir, f_readdir, f_closedir and the
-- commands cd, pwd, ls, cat and more: every byte of the disk and the superblock in memory stay as they
-- are.
pub Looks-disk :
    {s s' : FileSystem}
    → Looks s s'
    → ((x : ℕ) → s'.disk_image x ≡ s.disk_image x) × (s'.superblock1 ≡ s.superblock1)
Looks-disk {s} looks =
    let same =
      Looks-keeps (HasDisk s.disk_image s.superblock1) (record { disk = refl; superblock = refl })
        looks in
    (λ x. ap (λ m. m x) same.disk, same.superblock)
