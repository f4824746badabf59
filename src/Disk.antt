-- ===== src/Disk.antt =====
-- Blocks, inodes and the superblock on the mounted disk: get_data_block, write_data_to_block,
-- request_new_block, update_superblock_ondisk, get_inode, update_single_inode_ondisk and their
-- callers that only look (filesystem.c).
pub mod Geometry
pub mod Blocks
pub mod FreeList
pub mod Exhausted
use file_system_project.Prelude.{Bool, ltb, if◌then◌else◌}
use file_system_project.Prelude.Int.{ℤ, pos, minus_one, ◌+ℤ◌, ◌-ℤ◌, ◌*ℤ◌, div_ℤ, ltb_ℤ, ◌==ℤ◌}
use file_system_project.Memory.{Memory, int_at}
use file_system_project.Layout.{
  Superblock, Inode, DirectoryEntry, superblock_bytes, inode_bytes, inode_at, block_size,
  regions_start, sizeof_inode, sizeof_superblock, reg,
}
use file_system_project.Store.{M, pure, ◌>>=◌, ◌>>◌, gets, seek, read, write, set_superblock}

unfoldable pub get_data_block : ℤ → M Memory
get_data_block index = do
  sp ← gets λ s. s.superblock1
  p ← seek (pos regions_start +ℤ sp.data_offset *ℤ pos block_size +ℤ index *ℤ pos block_size)
  read p sp.size

-- EXITFAILURE is -1, EXITSUCCESS 0.
unfoldable pub write_data_to_block : ℤ → Memory → ℤ → M ℤ
write_data_to_block block_index content size = do
  sp ← gets λ s. s.superblock1
  if ltb_ℤ sp.size size then pure minus_one else do
    p ← seek (pos regions_start +ℤ sp.size *ℤ (sp.data_offset +ℤ block_index))
    write p content size
    pure (pos 0)

-- `fwrite(&padding, 1, 488, file)` goes on behind the superblock: 488 bytes from the address of
-- the 4-byte variable `padding`, which is 0.
unfoldable pub padding : Memory → Memory
padding overread a = if ltb a 4 then 0 else overread a

unfoldable pub update_superblock_ondisk : Superblock → M ℤ
unfolding padding
update_superblock_ondisk new_superblock = do
  write 512 (superblock_bytes new_superblock) (pos sizeof_superblock)
  behind ← gets λ s. s.overread
  write 536 (padding behind) (pos 488)
  pure (pos 512)

unfoldable pub request_new_block : M ℤ
request_new_block = do
  sp ← gets λ s. s.superblock1
  prevfree_block_on_disk ← get_data_block sp.free_block
  set_superblock (record sp { free_block = int_at prevfree_block_on_disk 0 })
  sp' ← gets λ s. s.superblock1
  update_superblock_ondisk sp'
  pure sp.free_block

unfoldable pub get_inode : ℤ → M Inode
get_inode index = do
  p ← seek (pos regions_start +ℤ index *ℤ pos sizeof_inode)
  node ← read p (pos sizeof_inode)
  pure (inode_at node)

-- The result is `sizeof(new_inode)`, the size of a pointer.
unfoldable pub update_single_inode_ondisk : Inode → ℤ → M ℤ
update_single_inode_ondisk new_inode new_inode_index = do
  sp ← gets λ s. s.superblock1
  if ltb_ℤ (div_ℤ ((sp.data_offset -ℤ sp.inode_offset) *ℤ sp.size) sizeof_inode) new_inode_index
      then pure minus_one
      else do
        p ← seek (
            pos regions_start
            +ℤ sp.inode_offset *ℤ pos block_size
            +ℤ new_inode_index *ℤ pos sizeof_inode)
        write p (inode_bytes new_inode) (pos sizeof_inode)
        pure (pos 8)

unfoldable pub if_is_file : ℤ → M Bool
if_is_file inode_index = do node ← get_inode inode_index; pure (node.type ==ℤ reg)

unfoldable pub first_free_inode : M ℤ
first_free_inode = gets λ s. s.superblock1.free_inode

-- `get_size_directory_entry_block` has the same body.
unfoldable pub get_size_directory_entry : DirectoryEntry → M ℤ
get_size_directory_entry entry = do dirnode ← get_inode entry.inode_index; pure dirnode.size
