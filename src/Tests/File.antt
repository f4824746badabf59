-- ===== src/Tests/File.antt =====
-- The theorems on regular files at concrete inputs.
use file_system_project.File.Open.{take_slot}
use file_system_project.File.Slot.{opened, take_slot-f_close}
use file_system_project.Table.{f_close, is_free, zero_inode}
use file_system_project.Table.Scan.{IsFirst}
use file_system_project.Prelude.{
  ℕ, zero, suc, ◌+◌, ◌*◌, ◌<◌, ◌%◌, ◌≡◌, ◌≢◌, refl, inl, false, true, some, [], ◌∷◌, arith, set,
  get_elem?,
}
use mathlib.Core.Option.{some-injective}
use file_system_project.Prelude.Int.{pos}
use file_system_project.Memory.{
  cleared, fwrite, fread, words, int_at, word_at, int_of_word, byte_of,
}
use file_system_project.Layout.{Inode, inode_at}
use file_system_project.Layout.RoundTrip.{IsInode}
use file_system_project.Store.{FileSystem, FileTableEntry}
use file_system_project.Disk.Geometry.{IsMounted, InRegion, block_of, inode_of, inode_address}
use file_system_project.Disk.FreeList.{superblock_of, FreeInodes}
use file_system_project.Table.{setup_file_table}
use file_system_project.BlockMap.Lookup.{Maps}
use file_system_project.File.Read.{f_read}
use file_system_project.File.ReadBlock.{f_read-in_block}
use file_system_project.File.Write.{f_write}
use file_system_project.File.Append.{f_write-append}
use file_system_project.File.Remove.{free_inode}
use file_system_project.File.Release.{released, free_inode-pushes}
use file_system_project.Tests.{image, sp, small_disk, node, node-IsInode, open_slot, open_disk}

open_disk-IsMounted : IsMounted 12 open_disk
open_disk-IsMounted = record {
  size = refl;
  inode_offset = refl;
  data_offset = refl;
  small = omega arith;
}

f_read-in_block_example :
    f_read cleared (pos 10) (pos 2) (pos 3) open_disk
    ≡ some ((pos 20, fwrite cleared 0 (λ j. block_of 12 image 3 (100 % 512 + j)) 10), open_disk)
unfolding setup_file_table
f_read-in_block_example =
    f_read-in_block open_disk-IsMounted node cleared 10 2 3 100 700 3 open_slot (omega arith) refl
      refl (inl refl) refl refl (omega arith) (omega arith) (omega arith) (omega arith)
      (omega arith) (Maps.direct (omega arith) refl)

abbrev append_slot : FileTableEntry
append_slot = record { free_file = false; file_inode = node; byte_offset = pos 0; access = pos 3 }

abbrev append_disk : FileSystem
append_disk = record small_disk { file_table = set setup_file_table 3 append_slot }

append_disk-IsMounted : IsMounted 12 append_disk
append_disk-IsMounted = record {
  size = refl;
  inode_offset = refl;
  data_offset = refl;
  small = omega arith;
}

-- The file's inode with 712 bytes.
abbrev node_712 : Inode
node_712 = record node { size = pos 712 }

node_712-IsInode : IsInode node_712
node_712-IsInode = ground arith

f_write-append_example :
    (s' : FileSystem) × (f_write (words (7 ∷ [])) (pos 4) (pos 3) (pos 3) append_disk
      ≡ some (pos 12, s'))
    × ((j r : ℕ)
        → j < 3
        → r < 4
        → block_of 12 s'.disk_image 4 (188 + (j * 4 + r)) ≡ words (7 ∷ []) r)
    × ((x : ℕ) → x < 188 → block_of 12 s'.disk_image 4 x ≡ block_of 12 image 4 x)
    × (inode_of s'.disk_image 2 ≡ node_712)
    × (get_elem? s'.file_table 3
        ≡ some (record append_slot { file_inode = node_712; byte_offset = pos 712 }))
    × ((c : ℕ) → 4 ≢ c → block_of 12 s'.disk_image c ≡ block_of 12 image c)
    × ((j : ℕ) → InRegion 12 j → 2 ≢ j → inode_of s'.disk_image j ≡ inode_of image j)
unfolding setup_file_table
f_write-append_example =
    f_write-append append_disk-IsMounted (words (7 ∷ [])) 3 2 4 700 4 3 append_slot 0 refl refl refl
      refl refl refl refl (omega arith) node_712-IsInode (omega arith) (omega arith)
      (Maps.direct (omega arith) refl)

-- Inode 5 is the one free inode.
abbrev inode_disk : FileSystem
inode_disk = record small_disk {
  disk_image = fwrite image (1024 + 5 * 116 + 8) (words (4294967295 ∷ [])) 4;
  superblock1 = record sp { free_inode = pos 5 };
}

inode_disk-IsMounted : IsMounted 12 inode_disk
inode_disk-IsMounted = record {
  size = refl;
  inode_offset = refl;
  data_offset = refl;
  small = omega arith;
}

inode_disk-FreeInodes : FreeInodes 12 inode_disk.disk_image (pos 5) (5 ∷ [])
unfolding inode_of inode_address fread fwrite inode_at int_at word_at int_of_word words byte_of
inode_disk-FreeInodes = (refl, omega arith, refl)

five-apart : (k j : ℕ) → get_elem? (5 ∷ []) k ≡ some j → 2 ≢ j
five-apart zero j h = let same = some-injective 5 j h in omega arith
five-apart (suc k) j h = absurd cc

free_inode-pushes_example :
    (s' : FileSystem) × (free_inode node inode_disk ≡ some (tt, s'))
    × FreeInodes 12 s'.disk_image s'.superblock1.free_inode (2 ∷ 5 ∷ [])
    × (inode_of s'.disk_image 2 ≡ released node (pos 5))
    × ((j : ℕ) → 2 ≢ j → inode_of s'.disk_image j ≡ inode_of inode_disk.disk_image j)
    × ((b : ℕ) → block_of 12 s'.disk_image b ≡ block_of 12 inode_disk.disk_image b)
    × (superblock_of s'.disk_image ≡ superblock_of inode_disk.disk_image)
free_inode-pushes_example =
    free_inode-pushes inode_disk-IsMounted node node-IsInode 2 (5 ∷ []) refl (omega arith)
      inode_disk-FreeInodes five-apart

abbrev free_slot : FileTableEntry
free_slot = record {
  free_file = true;
  file_inode = zero_inode;
  byte_offset = pos 0;
  access = pos 0;
}

setup-IsFirst : IsFirst is_free small_disk.file_table 0
unfolding setup_file_table
setup-IsFirst = record {
  entry = free_slot;
  at = refl;
  passes = refl;
  before = λ j e lt at. absurd (omega arith);
}

take_slot-f_close_example :
    (s1 : FileSystem) × (s2 : FileSystem) × (take_slot node (pos 2) small_disk ≡ some (pos 0, s1))
    × (get_elem? s1.file_table 0 ≡ some (opened node (pos 2)))
    × (f_close (pos 0) s1 ≡ some (true, s2))
    × (get_elem? s2.file_table 0 ≡ some (record (opened node (pos 2)) { free_file = true }))
    × (s2.table_freehead ≡ pos 0)
    × ((j : ℕ) → 0 ≢ j → get_elem? s2.file_table j ≡ get_elem? small_disk.file_table j)
    × (s2.disk_image ≡ image)
unfolding setup_file_table
take_slot-f_close_example = take_slot-f_close small_disk 0 node (pos 2) setup-IsFirst refl refl
