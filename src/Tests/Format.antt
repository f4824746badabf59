-- ===== src/Tests/Format.antt =====
-- The theorems on a formatted disk, for one megabyte.
use file_system_project.Prelude.{◌-◌, ◌≡◌, arith, true, refl, some, [], ◌∷◌}
use file_system_project.Disk.FreeList.{FreeBlocks, FreeInodes, superblock_of}
use file_system_project.Format.{
  write_disk, formatted_superblock, num_inodes, num_blocks_for_inodes, num_data_blocks,
}
use file_system_project.Format.Check.{test_disk}
use file_system_project.Format.Checked.{test_disk-write_disk}
use file_system_project.Format.Accepted.{test_disk_sound}
use file_system_project.Format.Main.{request, write_and_test}
use file_system_project.Prelude.Int.{pos}
use file_system_project.Text.{strtok}
use file_system_project.Numeral.{parse_cmd}
use file_system_project.Format.FreeLists.{FreeBlocks-write_disk, FreeInodes-write_disk, numbers}

FreeBlocks-write_disk_example :
    FreeBlocks
      (num_blocks_for_inodes 1)
      (write_disk 1)
      (superblock_of (write_disk 1)).free_block
      (numbers 1 (num_data_blocks 1000000 (num_blocks_for_inodes 1) - 1))
FreeBlocks-write_disk_example = FreeBlocks-write_disk 1 (omega arith) (omega arith)

FreeInodes-write_disk_example :
    FreeInodes
      (num_blocks_for_inodes 1)
      (write_disk 1)
      (superblock_of (write_disk 1)).free_inode
      (numbers 1 (num_inodes 1 - 1))
FreeInodes-write_disk_example = FreeInodes-write_disk 1 (omega arith) (omega arith)

test_disk-write_disk_example : test_disk 1 (write_disk 1) ≡ true
test_disk-write_disk_example = test_disk-write_disk 1 (omega arith)

test_disk_sound_example :
    (superblock_of (write_disk 1) ≡ formatted_superblock 12)
    × FreeBlocks 12 (write_disk 1) (pos 1) (numbers 1 (1940 - 1))
    × FreeInodes 12 (write_disk 1) (pos 1) (numbers 1 (52 - 1))
test_disk_sound_example =
    test_disk_sound 1 (omega arith) (write_disk 1) (omega arith)
      (test_disk-write_disk 1 (omega arith))

-- format "-s #2" disk
size_of_two :
    request ([] ∷ (b'-' ∷ b's' ∷ 32 ∷ b'#' ∷ b'2' ∷ []) ∷ [] ∷ [])
    ≡ some (write_and_test [] (pos 2))
unfolding request strtok parse_cmd
size_of_two = refl
