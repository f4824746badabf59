-- ===== src/Tests/Show.antt =====
-- The theorems on cat and more, on the operations and on the redirected input, at concrete inputs.
use file_system_project.Prelude.{
  ℕ, ◌<◌, ◌≡◌, refl, true, false, some, List, [], ◌∷◌, ◌++◌, arith, set, drop,
}
use file_system_project.Prelude.Int.{pos}
use file_system_project.Memory.{Memory}
use file_system_project.Layout.{Inode}
use file_system_project.Store.{FileSystem, FileTableEntry}
use file_system_project.Disk.Geometry.{IsBlock, InRegion, block_of, inode_of}
use file_system_project.Disk.{get_data_block, get_inode}
use file_system_project.Table.{
  setup_file_table, first_entry, f_close, f_seek, update_freehead, find_next_freehead,
}
use file_system_project.Whence
use file_system_project.BlockMap.Lookup.{Maps}
use file_system_project.Text.{Text}
use file_system_project.Parser.{Job, input}
use file_system_project.Keeps.{IsReady}
use file_system_project.Keeps.Operations.{Reach, here, next, close_file, Reach-get_data_block}
use file_system_project.Keeps.ReadOnly
use file_system_project.Keeps.ReadOnly.{Looks, Looks-disk}
use file_system_project.Shell.Launch.{input_arguments}
use file_system_project.Shell.Input.{input_arguments-drop}
use file_system_project.Shell.Show.{contents, sizes, heading, cat_slot, more_slot}
use file_system_project.Shell.ShowFile.{ReadFrom, cat_more-agree}
use file_system_project.Tests.{image, small_disk, node}
use file_system_project.Tests.Shell.{new_job}

-- The file with 5 bytes.
abbrev short : Inode
short = record node { size = pos 5 }

abbrev short_slot : FileTableEntry
short_slot = record { free_file = false; file_inode = short; byte_offset = pos 0; access = pos 3 }

abbrev short_disk : FileSystem
short_disk = record small_disk { file_table = set setup_file_table 3 short_slot }

abbrev read_slot : FileTableEntry
read_slot = record short_slot { access = pos 0 }

abbrev read_disk : FileSystem
read_disk = record small_disk { file_table = set setup_file_table 3 read_slot }

reading : ReadFrom 12 5 3 3 read_disk read_slot
unfolding setup_file_table
reading = record {
  mounted = record { size = refl; inode_offset = refl; data_offset = refl; small = omega arith };
  slots = refl;
  at = refl;
  below = omega arith;
  taken = refl;
  file = refl;
  mode = refl;
  start = refl;
  size = refl;
  block = omega arith;
  maps = Maps.direct (omega arith) refl;
}

cat_more-agree_example :
    (s' : FileSystem) × (bytes : Memory) × (f_close (pos 3) read_disk ≡ some (true, s'))
    × (cat_slot (b'f' ∷ []) (pos 3) read_disk ≡ some (contents 5 bytes, s'))
    × (more_slot true (b'f' ∷ []) (pos 3) read_disk
        ≡ some ((heading (b'f' ∷ []) ∷ sizes (pos 5) (pos 5) ∷ contents 5 bytes ∷ [], true), s'))
    × ((x : ℕ) → x < 5 → bytes x ≡ block_of 12 image 3 x)
cat_more-agree_example = cat_more-agree reading (b'f' ∷ []) true (omega arith) (omega arith)

abbrev closed_disk : FileSystem
closed_disk = record small_disk {
  file_table = set setup_file_table 3 (record read_slot { free_file = true });
  table_freehead = pos 0;
}

read_disk-IsReady : IsReady 12 read_disk
unfolding setup_file_table
read_disk-IsReady = record { size = refl; inode_offset = refl; data_offset = refl; slots = refl }

closed_disk-Reach : Reach read_disk closed_disk
unfolding setup_file_table f_close update_freehead find_next_freehead first_entry
closed_disk-Reach = next here (close_file (pos 3) refl)

Reach-get_data_block_example :
    IsReady 12 closed_disk
    × ((b : ℕ)
        → IsBlock b
        → get_data_block (pos b) closed_disk
          ≡ some (block_of 12 closed_disk.disk_image b, closed_disk))
    × ((i : ℕ)
        → InRegion 12 i
        → get_inode (pos i) closed_disk ≡ some (inode_of closed_disk.disk_image i, closed_disk))
Reach-get_data_block_example =
    Reach-get_data_block 12 (omega arith) read_disk-IsReady closed_disk-Reach

abbrev sought_disk : FileSystem
sought_disk = record read_disk {
  file_table = set setup_file_table 3 (record read_slot { byte_offset = pos 4; free_file = true });
  table_freehead = pos 0;
}

sought_disk-Looks : Looks read_disk sought_disk
unfolding setup_file_table f_seek f_close update_freehead find_next_freehead first_entry
sought_disk-Looks =
    ReadOnly.next
      (ReadOnly.next ReadOnly.here (ReadOnly.seek_file (pos 3) (pos 4) Whence.seek_set refl))
      (ReadOnly.close_file (pos 3) refl)

Looks-disk_example :
    ((x : ℕ) → sought_disk.disk_image x ≡ read_disk.disk_image x)
    × (sought_disk.superblock1 ≡ read_disk.superblock1)
Looks-disk_example = Looks-disk sought_disk-Looks

-- `cat x < f`
abbrev with_arguments : List Text → Job
with_arguments args = record new_job {
  processes = record { pid = 0; args = args; status = 0 } ∷ [];
  run_with_redirection = input;
}

abbrev cat_x : List Text
cat_x = (b'c' ∷ b'a' ∷ b't' ∷ []) ∷ (b'x' ∷ []) ∷ []

input_arguments-drop_example :
    input_arguments cat_x (with_arguments cat_x ∷ with_arguments ((b'f' ∷ []) ∷ []) ∷ [])
    ≡ some (((b'c' ∷ b'a' ∷ b't' ∷ []) ∷ (b'f' ∷ []) ∷ []) ++ drop 2 cat_x)
input_arguments-drop_example =
    input_arguments-drop cat_x ((b'c' ∷ b'a' ∷ b't' ∷ []) ∷ (b'f' ∷ []) ∷ [])
      (with_arguments cat_x ∷ with_arguments ((b'f' ∷ []) ∷ []) ∷ []) refl (omega arith)
