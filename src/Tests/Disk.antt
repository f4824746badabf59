-- ===== src/Tests/Disk.antt =====
-- The theorems on blocks, inodes and the free lists at concrete inputs.
use file_system_project.Disk.FreeList.{after_request}
use file_system_project.Disk.Exhausted.{stray_head, request_new_block-exhausted}
use file_system_project.Prelude.{ℕ, ◌≡◌, refl, some, [], ◌∷◌, arith}
use file_system_project.Prelude.Int.{pos, minus_one}
use file_system_project.Memory.{fwrite}
use file_system_project.Layout.{inode_bytes}
use file_system_project.Store.{FileSystem, ◌>>◌}
use file_system_project.Disk.{get_inode, update_single_inode_ondisk, request_new_block}
use file_system_project.Disk.Geometry.{IsMounted, block_of, inode_of, inode_address, with_image}
use file_system_project.Disk.Blocks.{get_inode-update_single_inode_ondisk}
use file_system_project.Disk.FreeList.{FreeBlocks, superblock_of, request_new_block-pops}
use file_system_project.Table.{setup_file_table}
use file_system_project.Tests.{
  image, sp, small_disk, small_disk-IsMounted, small_disk-FreeBlocks, sp-IsSuperblock, node,
  node-IsInode,
}

get_inode-update_single_inode_ondisk_example :
    (update_single_inode_ondisk node (pos 2) >> get_inode (pos 2)) small_disk
    ≡ some (node, with_image small_disk (fwrite image (inode_address 2) (inode_bytes node) 116))
get_inode-update_single_inode_ondisk_example =
    get_inode-update_single_inode_ondisk small_disk-IsMounted node 2 2 node-IsInode (omega arith)
      (omega arith)

request_new_block-pops_example :
    (s' : FileSystem) × (request_new_block small_disk ≡ some (pos 1, s'))
    × FreeBlocks 12 s'.disk_image s'.superblock1.free_block (2 ∷ [])
    × (superblock_of s'.disk_image ≡ s'.superblock1)
    × ((c : ℕ) → block_of 12 s'.disk_image c ≡ block_of 12 image c)
    × ((i : ℕ) → inode_of s'.disk_image i ≡ inode_of image i)
    × IsMounted 12 s'
    × (s'.file_table ≡ setup_file_table)
request_new_block-pops_example =
    request_new_block-pops small_disk-IsMounted 1 (2 ∷ []) sp-IsSuperblock small_disk-FreeBlocks

-- With no free block.
abbrev full_disk : FileSystem
full_disk = record small_disk { superblock1 = record sp { free_block = minus_one } }

full_disk-IsMounted : IsMounted 12 full_disk
full_disk-IsMounted = record {
  size = refl;
  inode_offset = refl;
  data_offset = refl;
  small = omega arith;
}

request_new_block-exhausted_example :
    request_new_block full_disk ≡ some (minus_one, after_request full_disk (stray_head 12 image))
request_new_block-exhausted_example = request_new_block-exhausted full_disk-IsMounted refl
