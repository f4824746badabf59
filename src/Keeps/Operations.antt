-- ===== src/Keeps/Operations.antt =====
-- The operations of filesystem.c, and the shell's commands on the mounted disk, as steps of the state.
use file_system_project.Prelude.{ℕ, ◌≤◌, ◌≡◌, Bool, Option, some, List}
use file_system_project.Prelude.Int.{ℤ, pos}
use file_system_project.Memory.{Memory}
use file_system_project.Layout.{DirectoryEntry}
use file_system_project.Text.{Text}
use file_system_project.Store.{FileSystem}
use file_system_project.Table.{f_close, f_rewind, f_seek, f_closedir, DirectoryPointer}
use file_system_project.Disk.{get_data_block, get_inode}
use file_system_project.Disk.Geometry.{
  IsMounted, IsBlock, InRegion, block_of, inode_of, get_data_block-ok, get_inode-ok,
}
use file_system_project.Directory.{f_readdir}
use file_system_project.Directory.Open.{f_opendir}
use file_system_project.Directory.Make.{f_mkdir}
use file_system_project.File.Open.{f_open}
use file_system_project.File.Read.{f_read}
use file_system_project.File.Write.{f_write}
use file_system_project.File.Remove.{f_remove, f_rmdir}
use file_system_project.Shell.FileCommands.{
  Line, mkdir_builtin, rm_builtin, rmdir_builtin, cd_builtin, pwd_builtin, ls_builtin,
}
use file_system_project.Shell.Show.{Shown, cat_builtin, more_builtin}
use file_system_project.Shell.Redirect.{redirect}
use file_system_project.Parser.{Job}
use file_system_project.Keeps.{IsReady, IsReady-IsBesideTable}
use file_system_project.Keeps.Table.{Keeps-f_close, Keeps-f_rewind, Keeps-f_seek, Keeps-f_closedir}
use file_system_project.Keeps.Directory.{Keeps-f_readdir, Keeps-f_opendir, Keeps-f_mkdir}
use file_system_project.Keeps.Files.{Keeps-f_open, Keeps-f_read, Keeps-f_write}
use file_system_project.Keeps.Remove.{Keeps-f_remove, Keeps-f_rmdir}
use file_system_project.Keeps.Commands.{
  Keeps-mkdir_builtin, Keeps-rm_builtin, Keeps-rmdir_builtin, Keeps-cd_builtin, Keeps-pwd_builtin,
  Keeps-redirect, Keeps-ls_builtin, Keeps-cat_builtin, Keeps-more_builtin,
}

-- One call that returns: one that runs into undefined behaviour, such as a use of root_dir_entry once
-- it is freed, is no step. An entry of its own that f_closedir is given is a live object.
pub data Step (s s' : FileSystem) : Type 0 where
  open_file : {fd : ℤ} (path : Text) (access : ℤ) → f_open path access s ≡ some (fd, s') → Step s s'
  close_file : {r : Bool} (fd : ℤ) → f_close fd s ≡ some (r, s') → Step s s'
  rewind_file : {r : Bool} (fd : ℤ) → f_rewind fd s ≡ some (r, s') → Step s s'
  seek_file :
      {r : Bool} (fd offset whence : ℤ) → f_seek fd offset whence s ≡ some (r, s') → Step s s'
  read_file :
      {r : ℤ × Memory} (b : Memory) (size n fd : ℤ)
      → f_read b size n fd s ≡ some (r, s')
      → Step s s'
  write_file :
      {r : ℤ} (b : Memory) (size n fd : ℤ) → f_write b size n fd s ≡ some (r, s') → Step s s'
  remove_file : {r : Bool} (path : Text) → f_remove path s ≡ some (r, s') → Step s s'
  open_dir : {r : Option DirectoryEntry} (path : Text) → f_opendir path s ≡ some (r, s') → Step s s'
  read_dir : {r : Option DirectoryEntry} (fd : ℤ) → f_readdir fd s ≡ some (r, s') → Step s s'
  close_dir : {r : Bool} (e : DirectoryPointer) → f_closedir e s ≡ some (r, s') → Step s s'
  make_dir : {r : Option DirectoryEntry} (path : Text) → f_mkdir path s ≡ some (r, s') → Step s s'
  remove_dir :
      {r : Option DirectoryEntry} (fuel : ℕ) (path : Text)
      → f_rmdir fuel path s ≡ some (r, s')
      → Step s s'
  mkdir_command :
      (fuel : ℕ) (args : List Text) (pwd : DirectoryEntry)
      → mkdir_builtin fuel args pwd s ≡ some (tt, s')
      → Step s s'
  rm_command :
      (fuel : ℕ) (args : List Text) (pwd : DirectoryEntry)
      → rm_builtin fuel args pwd s ≡ some (tt, s')
      → Step s s'
  rmdir_command :
      (fuel : ℕ) (args : List Text) (pwd : DirectoryEntry)
      → rmdir_builtin fuel args pwd s ≡ some (tt, s')
      → Step s s'
  cd_command :
      {r : Option DirectoryEntry} (fuel : ℕ) (args : List Text) (pwd : DirectoryEntry)
      → cd_builtin fuel args pwd s ≡ some (r, s')
      → Step s s'
  pwd_command :
      {r : Option Text} (fuel : ℕ) (pwd : DirectoryEntry)
      → pwd_builtin fuel pwd s ≡ some (r, s')
      → Step s s'
  ls_command :
      {r : Option (List Line)} (fuel : ℕ) (args : List Text) (pwd : DirectoryEntry)
      → ls_builtin fuel args pwd s ≡ some (r, s')
      → Step s s'
  cat_command :
      {r : List Shown} (fuel : ℕ) (args : List Text) (stdin : Text) (pwd : DirectoryEntry)
      → cat_builtin fuel args stdin pwd s ≡ some (r, s')
      → Step s s'
  more_command :
      {r : List Shown} (fuel : ℕ) (args : List Text) (pwd : DirectoryEntry)
      → more_builtin fuel args pwd s ≡ some (r, s')
      → Step s s'
  redirected_output :
      (fuel : ℕ) (jobs : List Job) (size : ℕ) (output : Memory) (pwd : DirectoryEntry)
      → redirect fuel jobs size output pwd s ≡ some (tt, s')
      → Step s s'

-- Any number of calls.
pub data Reach (s : FileSystem) : FileSystem → Type 0 where
  here : Reach s s
  next : {s1 s2 : FileSystem} → Reach s s1 → Step s1 s2 → Reach s s2

Step-IsReady : {d : ℕ} {s s' : FileSystem} → IsReady d s → Step s s' → IsReady d s'
Step-IsReady {d} v (open_file path access h) = (Keeps-f_open path access).after v h
Step-IsReady {d} v (close_file fd h) = (Keeps-f_close {P = IsReady d} fd).after v h
Step-IsReady {d} v (rewind_file fd h) = (Keeps-f_rewind {P = IsReady d} fd).after v h
Step-IsReady {d} v (seek_file fd offset whence h) =
    (Keeps-f_seek {P = IsReady d} fd offset whence).after v h
Step-IsReady {d} v (read_file b size n fd h) = (Keeps-f_read {P = IsReady d} b size n fd).after v h
Step-IsReady {d} v (write_file b size n fd h) = (Keeps-f_write b size n fd).after v h
Step-IsReady {d} v (remove_file path h) = (Keeps-f_remove path).after v h
Step-IsReady {d} v (open_dir path h) = (Keeps-f_opendir {P = IsReady d} path).after v h
Step-IsReady {d} v (read_dir fd h) = (Keeps-f_readdir {P = IsReady d} fd).after v h
Step-IsReady {d} v (close_dir e h) = (Keeps-f_closedir {P = IsReady d} e).after v h
Step-IsReady {d} v (make_dir path h) = (Keeps-f_mkdir path).after v h
Step-IsReady {d} v (remove_dir fuel path h) = (Keeps-f_rmdir fuel path).after v h
Step-IsReady {d} v (mkdir_command fuel args pwd h) = (Keeps-mkdir_builtin fuel args pwd).after v h
Step-IsReady {d} v (rm_command fuel args pwd h) = (Keeps-rm_builtin fuel args pwd).after v h
Step-IsReady {d} v (rmdir_command fuel args pwd h) = (Keeps-rmdir_builtin fuel args pwd).after v h
Step-IsReady {d} v (cd_command fuel args pwd h) =
    (Keeps-cd_builtin {P = IsReady d} fuel args pwd).after v h
Step-IsReady {d} v (pwd_command fuel pwd h) = (Keeps-pwd_builtin {P = IsReady d} fuel pwd).after v h
Step-IsReady {d} v (ls_command fuel args pwd h) =
    (Keeps-ls_builtin {P = IsReady d} fuel args pwd).after v h
Step-IsReady {d} v (cat_command fuel args stdin pwd h) =
    (Keeps-cat_builtin {P = IsReady d} fuel args stdin pwd).after v h
Step-IsReady {d} v (more_command fuel args pwd h) =
    (Keeps-more_builtin {P = IsReady d} fuel args pwd).after v h
Step-IsReady {d} v (redirected_output fuel jobs size output pwd h) =
    (Keeps-redirect fuel jobs size output pwd).after v h

Reach-IsReady : {d : ℕ} {s s' : FileSystem} → IsReady d s → Reach s s' → IsReady d s'
Reach-IsReady v here = v
Reach-IsReady v (next before step) = Step-IsReady (Reach-IsReady v before) step

-- From a state with 20 slots and the superblock of a disk of 512-byte blocks with d blocks of inodes,
-- whatever operations of the file system, commands of the shell on the disk and redirections run and
-- return, in any order and with any arguments: the superblock in memory has the same geometry and the
-- table has 20 slots. So get_data_block and get_inode still read each block, up to the millionth, and
-- each inode of the region at its place, and change nothing.
pub Reach-get_data_block :
    (d : ℕ) {s s' : FileSystem}
    → d ≤ 1000000
    → IsReady d s
    → Reach s s'
    → IsReady d s'
      × ((b : ℕ) → IsBlock b → get_data_block (pos b) s' ≡ some (block_of d s'.disk_image b, s'))
      × ((i : ℕ) → InRegion d i → get_inode (pos i) s' ≡ some (inode_of s'.disk_image i, s'))
Reach-get_data_block d {s' = s'} small v steps =
    let v' = Reach-IsReady v steps in
    let at_place : IsMounted d s' = record {
      size = v'.size;
      inode_offset = v'.inode_offset;
      data_offset = v'.data_offset;
      small = small;
    } in
    (v', get_data_block-ok at_place, get_inode-ok at_place)
