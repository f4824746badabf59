-- ===== src/Tests/FormatDir.antt =====
-- The theorems on the disk that format_dir.c writes, for one megabyte and zeros behind the object.
use file_system_project.Prelude.{◌-◌, false, ℕ, ◌<◌, ◌≡◌, refl, some, arith, get_or}
use file_system_project.Prelude.Int.{pos}
use file_system_project.Memory.{Memory, cleared}
use file_system_project.Disk.Geometry.{IsMounted}
use file_system_project.Disk.FreeList.{FreeBlocks, FreeInodes, superblock_of}
use file_system_project.Format.{num_inodes, num_blocks_for_inodes, num_data_blocks}
use file_system_project.Format.FreeLists.{numbers}
use file_system_project.FormatDir.{write_disk, formatted_superblock, file_data}
use file_system_project.FormatDir.Regions.{Free-write_disk}
use file_system_project.FormatDir.Opened.{file_path, with_file, f_open-f_read}
use file_system_project.File.Open.{f_open}
use file_system_project.File.Read.{f_read}
use file_system_project.Access
use file_system_project.Store.{FileSystem, ◌>>=◌}
use file_system_project.Table.{setup_file_table}
use file_system_project.Tests.{slash}

Free-write_disk_example :
    FreeBlocks
      (num_blocks_for_inodes 1)
      (write_disk cleared 1)
      (superblock_of (write_disk cleared 1)).free_block
      (numbers 3 (num_data_blocks 1000000 (num_blocks_for_inodes 1) - 3))
    × FreeInodes
        (num_blocks_for_inodes 1)
        (write_disk cleared 1)
        (superblock_of (write_disk cleared 1)).free_inode
        (numbers 3 (num_inodes 1 - 3))
Free-write_disk_example = Free-write_disk cleared 1 (omega arith) (omega arith)

-- The disk, mounted, with no file open.
abbrev mounted : FileSystem
mounted = record {
  disk_image = write_disk cleared 1;
  superblock1 = formatted_superblock 12;
  file_table = setup_file_table;
  table_freehead = pos 0;
  root_dir_entry = slash;
  root_freed = false;
  overread = cleared;
}

mounted-IsMounted : IsMounted 12 mounted
mounted-IsMounted = record {
  size = refl;
  inode_offset = refl;
  data_offset = refl;
  small = omega arith;
}

f_open-f_read_example :
    (bytes : Memory) × ((f_open file_path Access.read >>= λ fd. f_read cleared (pos 18) (pos 1) fd)
        mounted
      ≡ some ((pos 18, bytes), with_file mounted))
    × ((x : ℕ) → x < 18 → bytes x ≡ get_or file_data x 0)
f_open-f_read_example =
    f_open-f_read cleared 1 mounted (omega arith) (omega arith) mounted-IsMounted refl refl refl
      cleared
