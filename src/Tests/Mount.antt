-- ===== src/Tests/Mount.antt =====
-- The theorem on the mount table for a disk of one megabyte.
use file_system_project.Prelude.{◌≡◌, refl, true, Option, none, some, [], ◌∷◌, arith, set}
use file_system_project.Prelude.Int.{pos, minus_one}
use file_system_project.Text.{Text}
use file_system_project.Format.{write_disk}
use file_system_project.Mount.{
  HostFile, MountTable, zero_superblock, setup_mounted_disks, free_spot_from,
  first_free_location_in_mount, f_mount, f_unmount,
}
use file_system_project.Mount.Formatted.{formatted_slot, f_mount-f_unmount}

abbrev disk : Text
disk = b'D' ∷ []

abbrev host : Text → Option HostFile
host name = some (record { image = write_disk 1; length = 1000000 })

abbrev empty_table : MountTable
empty_table = record { mounted_disks = setup_mounted_disks; current_mounted_disk = minus_one }

abbrev mounted_table : MountTable
mounted_table = record {
  mounted_disks = set setup_mounted_disks 0 (formatted_slot disk 1);
  current_mounted_disk = pos 0;
}

f_mount-f_unmount_example :
    (f_mount host disk empty_table ≡ some ((true, some (pos 0)), mounted_table))
    × (f_unmount (pos 0) mounted_table
        ≡ some (
          true,
          record mounted_table {
            mounted_disks =
                set setup_mounted_disks 0 (record (formatted_slot disk 1) { free_spot = true });
          },
        ))
unfolding setup_mounted_disks first_free_location_in_mount free_spot_from
f_mount-f_unmount_example =
    f_mount-f_unmount 1 (omega arith) host disk 1000000 empty_table 0
      (record { free_spot = true; disk_image_ptr = none; superblock1 = zero_superblock }) refl
      (omega arith) (omega arith) refl refl (omega arith)
