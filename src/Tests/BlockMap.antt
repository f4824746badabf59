-- ===== src/Tests/BlockMap.antt =====
-- The theorems on the blocks of a file at concrete inputs.
use file_system_project.Prelude.{ℕ, ◌≡◌, ◌≢◌, refl, none, some, [], ◌∷◌, arith}
use file_system_project.Prelude.Int.{pos}
use file_system_project.Memory.{fwrite, fread, words, int_at, word_at, int_of_word, byte_of}
use file_system_project.Store.{FileSystem}
use file_system_project.Disk.Geometry.{block_of, inode_of, block_address}
use file_system_project.Disk.FreeList.{FreeBlocks}
use file_system_project.BlockMap.{get_block_from_index, find_next_datablock}
use file_system_project.BlockMap.Lookup.{
  Maps, get_block_from_index-Maps, get_block_from_index-triple_faults,
}
use file_system_project.BlockMap.Extend.{with_dblock, find_next_datablock-direct}
use file_system_project.Tests.{
  image, small_disk, small_disk-IsMounted, small_disk-FreeBlocks, sp-IsSuperblock, node,
  node-IsInode,
}

find_next_datablock-direct_example :
    (s' : FileSystem) × (find_next_datablock node (pos 3) (pos 700) (pos 1024) small_disk
      ≡ some ((pos 1, with_dblock node 2 1), s'))
    × Maps 12 s'.disk_image (inode_of s'.disk_image 2) 2 1
    × (inode_of s'.disk_image 2 ≡ with_dblock node 2 1)
    × FreeBlocks 12 s'.disk_image s'.superblock1.free_block (2 ∷ [])
    × ((c : ℕ) → block_of 12 s'.disk_image c ≡ block_of 12 image c)
    × ((j : ℕ) → 2 ≢ j → inode_of s'.disk_image j ≡ inode_of image j)
find_next_datablock-direct_example =
    find_next_datablock-direct small_disk-IsMounted node node-IsInode 2 2 1 (2 ∷ []) (pos 700)
      (pos 1024) (omega arith) refl (omega arith) refl sp-IsSuperblock small_disk-FreeBlocks

get_block_from_index-Maps_example :
    get_block_from_index (pos 1) node small_disk
    ≡ some (some (block_of 12 image 4, pos 4), small_disk)
get_block_from_index-Maps_example =
    get_block_from_index-Maps small_disk-IsMounted node 1 4 (omega arith)
      (Maps.direct (omega arith) refl)

get_block_from_index-triple_faults_example : get_block_from_index (pos 33290) node small_disk ≡ none
unfolding block_of block_address fread fwrite int_at word_at int_of_word words byte_of
get_block_from_index-triple_faults_example =
    get_block_from_index-triple_faults small_disk-IsMounted node 16384 0 0 (omega arith)
      (omega arith) refl (omega arith) refl (omega arith)
