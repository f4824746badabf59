-- ===== src/Tests/Directory.antt =====
-- The theorems on directories at concrete inputs.
use file_system_project.Layout.{DirectoryEntry}
use file_system_project.Text.{c_string, text_eq}
use file_system_project.Prelude.{
  ℕ, zero, suc, true, ◌≡◌, ◌≢◌, refl, some, [], ◌∷◌, arith, replicate, get_elem?,
}
use mathlib.Core.Option.{some-injective}
use file_system_project.Layout.RoundTrip.{IsInode, IsEntry}
use file_system_project.Store.{FileSystem}
use file_system_project.Disk.Geometry.{InRegion, block_of, inode_of}
use file_system_project.Disk.FreeList.{FreeBlocks, superblock_of}
use file_system_project.Directory.Make.{append_entry_last_block, start_directory}
use file_system_project.Directory.Append.{grown, append_entry_last_block-Holds}
use file_system_project.Directory.NewInode.{directory_inode}
use file_system_project.Directory.Start.{start_directory-Holds}
use file_system_project.Prelude.Int.{pos}
use file_system_project.Table.{setup_file_table}
use file_system_project.Directory.Contents.{slot_at, Holds}
use file_system_project.Directory.Open.{scan}
use file_system_project.Directory.Lookup.{find_named, scan-find_named}
use file_system_project.Tests.{
  entry_a, directory_slot, directory_node, image, node, node-IsInode, slash, slash-IsEntry,
  sp-IsSuperblock, small_disk, small_disk-IsMounted, small_disk-FreeBlocks, directory_disk,
  directory_disk-IsMounted, directory_disk-Holds,
}

scan-find_named_example :
    scan (pos 0) (b'a' ∷ []) directory_disk
    ≡ some (some entry_a, slot_at directory_disk 0 directory_slot 0)
unfolding setup_file_table find_named c_string text_eq
scan-find_named_example =
    scan-find_named directory_disk-IsMounted 0 directory_slot (b'a' ∷ []) (entry_a ∷ [])
      (record { size_eq = refl; entry = directory_disk-Holds }) (omega arith) refl

abbrev entry_b : DirectoryEntry
entry_b = record { inode_index = pos 3; filename = b'b' ∷ replicate 59 0 }

entry_b-IsEntry : IsEntry entry_b
entry_b-IsEntry = record { inode_index = omega arith; length-filename = refl }

directory-IsInode : IsInode (grown directory_node 1)
directory-IsInode = ground arith

append_entry_last_block-Holds_example :
    (s' : FileSystem) × (append_entry_last_block
        (pos 0)
        directory_slot
        entry_b
        (block_of 12 directory_disk.disk_image 6)
        directory_disk
      ≡ some (grown directory_node 1, s'))
    × Holds 12 s'.disk_image (grown directory_node 1) (entry_a ∷ entry_b ∷ [])
    × (inode_of s'.disk_image 0 ≡ grown directory_node 1)
    × (get_elem? s'.file_table 0
        ≡ some (record directory_slot { file_inode = grown directory_node 1 }))
    × ((c : ℕ) → 6 ≢ c → block_of 12 s'.disk_image c ≡ block_of 12 directory_disk.disk_image c)
    × ((j : ℕ)
        → InRegion 12 j
        → 0 ≢ j
        → inode_of s'.disk_image j ≡ inode_of directory_disk.disk_image j)
unfolding setup_file_table
append_entry_last_block-Holds_example =
    append_entry_last_block-Holds directory_disk-IsMounted 0 0 6 directory_slot directory_slot
      (entry_a ∷ []) entry_b (omega arith) (omega arith) refl
      (record { size_eq = refl; entry = directory_disk-Holds }) directory-IsInode entry_b-IsEntry
      refl refl refl (λ k c lt at. absurd (omega arith))

two-apart : (k c : ℕ) → get_elem? (2 ∷ []) k ≡ some c → 1 ≢ c
two-apart zero c h = let same = some-injective 2 c h in omega arith
two-apart (suc k) c h = absurd cc

start_directory-Holds_example :
    let made = directory_inode true node (pos 0) 1 in
    (s' : FileSystem) × (start_directory true node (pos 2) (pos 0) entry_a slash small_disk
      ≡ some (tt, s'))
    × (inode_of s'.disk_image 2 ≡ made)
    × Holds 12 s'.disk_image made (entry_a ∷ slash ∷ [])
    × FreeBlocks 12 s'.disk_image s'.superblock1.free_block (2 ∷ [])
    × (superblock_of s'.disk_image ≡ s'.superblock1)
    × ((c : ℕ) → 1 ≢ c → block_of 12 s'.disk_image c ≡ block_of 12 image c)
    × ((j : ℕ) → InRegion 12 j → 2 ≢ j → inode_of s'.disk_image j ≡ inode_of image j)
start_directory-Holds_example =
    start_directory-Holds small_disk-IsMounted true node 2 1 (pos 0) entry_a slash (2 ∷ [])
      sp-IsSuperblock small_disk-FreeBlocks node-IsInode (omega arith) (omega arith)
      (record { inode_index = omega arith; length-filename = refl }) slash-IsEntry two-apart
