-- ===== src/Mount.antt =====
-- The mount table (filesystem.c: setup, f_mount, f_unmount). A disk image is a file of the host; a
-- slot of the table names the file that it has open.
pub mod Formatted
use file_system_project.Prelude.{
  ℕ, suc, ◌+◌, ◌-◌, ◌%◌, ltb, Bool, true, false, ◌&&◌, Option, none, some, List, [], ◌∷◌,
  if◌then◌else◌, replicate, get_elem?, set,
}
use file_system_project.Prelude.Int.{ℤ, pos, negsuc, minus_one, leb_ℤ, ltb_ℤ, ◌==ℤ◌}
use file_system_project.Memory.{Memory, fwrite, int_of_word}
use file_system_project.Layout.{Superblock, superblock_at, superblock_bytes}
use file_system_project.Text.{Text}

-- A file of the host, with its length in bytes.
pub record HostFile : Type 0 where
  pub image : Memory
  pub length : ℕ

pub record MountTableEntry : Type 0 where
  pub free_spot : Bool
  pub disk_image_ptr : Option Text
  pub superblock1 : Superblock

-- `current_mounted_disk` is an index into the table, -1 while it is NULL.
pub record MountTable : Type 0 where
  pub mounted_disks : List MountTableEntry
  pub current_mounted_disk : ℤ

abbrev pub mount_table_size : ℕ
mount_table_size = 20

abbrev pub zero_superblock : Superblock
zero_superblock = record {
  size = pos 0;
  inode_offset = pos 0;
  data_offset = pos 0;
  free_inode = pos 0;
  free_block = pos 0;
  root_dir = pos 0;
}

-- The table as `setup` leaves it.
unfoldable pub setup_mounted_disks : List MountTableEntry
setup_mounted_disks =
    replicate mount_table_size
      (record { free_spot = true; disk_image_ptr = none; superblock1 = zero_superblock })

unfoldable pub free_spot_from : ℕ → List MountTableEntry → ℤ
free_spot_from i [] = minus_one
free_spot_from i (e ∷ es) =
    let rest = free_spot_from (suc i) es in if e.free_spot then pos i else rest

unfoldable pub first_free_location_in_mount : MountTable → ℤ
first_free_location_in_mount table = free_spot_from 0 table.mounted_disks

-- `fread` of the superblock into a slot: what a short file has not got keeps its old bytes.
unfoldable pub read_superblock : HostFile → Superblock → Superblock
read_superblock file old =
    let available = file.length - 512 in
    let n = if ltb available 24 then available else 24 in
    superblock_at (fwrite (superblock_bytes old) 0 (λ j. file.image (512 + j)) n)

-- The slot at an index with an open file; the read of a data block for testing fails only on a
-- negative block size.
unfoldable pub mount_at : ℕ → Text → HostFile → MountTable → Option (Bool × MountTable)
unfolding read_superblock
mount_at i disk_img file table = elim (get_elem? table.mounted_disks i) [
  | none ↦ none
  | some old ↦
      let sp = read_superblock file old.superblock1 in
      let e : MountTableEntry = record {
        free_spot = false;
        disk_image_ptr = some disk_img;
        superblock1 = sp;
      } in
      if ltb_ℤ sp.size (pos 0)
      then none
      else some (
        true,
        record { mounted_disks = set table.mounted_disks i e; current_mounted_disk = pos i },
      )
]

unfoldable pub mount_opened :
    ℕ → Text → Option HostFile → MountTable → Option ((Bool × Option ℤ) × MountTable)
unfolding mount_at
mount_opened i disk_img none table = some ((false, some (pos i)), table)
mount_opened i disk_img (some file) table =
    let mounted : Option ((Bool × Option ℤ) × MountTable) = elim (mount_at i disk_img file table) [
      | none ↦ none
      | some (result, table') ↦ some ((result, some (pos i)), table')
    ] in
    if leb_ℤ (int_of_word (file.length % 4294967296)) (pos 0)
    then some ((false, some (pos i)), table)
    else mounted

-- The result, what is stored in `*mount_table_index` if anything, and the table; `open_file` is the
-- host's files. An `int` takes the length, which ftell gives as a long.
unfoldable pub f_mount :
    (Text → Option HostFile) → Text → MountTable → Option ((Bool × Option ℤ) × MountTable)
unfolding mount_opened
f_mount open_file disk_img table = elim (first_free_location_in_mount table) [
  | pos i ↦ mount_opened i disk_img (open_file disk_img) table
  | negsuc i ↦ some ((false, none), table)
]

unfoldable pub unmount_at : ℕ → MountTable → Option (Bool × MountTable)
unmount_at i table = elim (get_elem? table.mounted_disks i) [
  | none ↦ none
  | some e ↦ some (
      if e.free_spot then (false, table) else (
        true,
        record table { mounted_disks = set table.mounted_disks i (record e { free_spot = true }) },
      ))
]

unfoldable pub f_unmount : ℤ → MountTable → Option (Bool × MountTable)
unfolding unmount_at
f_unmount (pos i) table =
    if ltb_ℤ (pos i) (pos mount_table_size) then unmount_at i table else some (false, table)
f_unmount (negsuc i) table = some (false, table)
