-- ===== src/Directory.antt =====
-- Directory files: f_readdir, f_opendir, f_mkdir and what they share (filesystem.c).
pub mod Open
pub mod Make
pub mod Bytes
pub mod NewInode
pub mod Append
pub mod Start
pub mod Contents
pub mod Lookup
pub mod OpenChild
use file_system_project.Prelude.{
  ℕ, zero, suc, ◌+◌, ◌-◌, ◌*◌, ◌/◌, Bool, true, false, ◌&&◌, ◌||◌, not, Option, none, some, List,
  [], ◌∷◌, ltb, ◌==◌, if◌then◌else◌, replicate,
}
use file_system_project.Prelude.Int.{
  ℤ, pos, negsuc, minus_one, ◌+ℤ◌, ◌-ℤ◌, ◌*ℤ◌, div_ℤ, mod_ℤ, ltb_ℤ, leb_ℤ, ◌==ℤ◌,
}
use file_system_project.Memory.{Memory, cleared, fread, fwrite, int_at}
use file_system_project.Layout.{
  Inode, DirectoryEntry, Superblock, entry_at, entry_bytes, block_size, n_dblocks, n_iblocks,
  filename_max, file_table_size, sizeof_directory_entry, dir,
}
use file_system_project.Store.{
  FileTableEntry, FileSystem, M, pure, ◌>>=◌, ◌>>◌, gets, modify, undefined, or_undefined, element,
  block_element, table_entry, set_table_entry, set_superblock, set_freehead, assign,
}
use file_system_project.Disk.{
  get_data_block, write_data_to_block, get_inode, update_single_inode_ondisk,
  update_superblock_ondisk,
}
use file_system_project.Access
use file_system_project.Table.{already_in_table, update_freehead, get_fd_from_inode_value}
use file_system_project.BlockMap.{find_next_datablock}
use file_system_project.Text.{
  Text, c_string, text_eq, strcpy, is_slash, is_slash_or_quote, strtok, path_of, split_last,
}

abbrev pub nat : ℤ → M ℕ
nat (pos n) = pure n
nat (negsuc n) = undefined

-- `a < b` after both became `size_t`: a negative `a` is above every size.
abbrev pub ltb_unsigned : ℤ → ℕ → Bool
ltb_unsigned (pos a) b = ltb a b
ltb_unsigned (negsuc a) b = false

unfoldable pub direct_copy : ℤ → ℤ → M DirectoryEntry
direct_copy block_to_fetch offset_in_block = do
  data_block ← get_data_block block_to_fetch
  o ← nat offset_in_block
  pure (entry_at (fread data_block o sizeof_directory_entry))

unfoldable pub indirect_copy : ℤ → ℤ → ℤ → M DirectoryEntry
unfolding direct_copy
indirect_copy index indirect_block_to_fetch offset_in_block = do
  indirect_data_block ← get_data_block indirect_block_to_fetch
  block_to_fetch ← block_element indirect_data_block index
  direct_copy block_to_fetch offset_in_block

-- DBLOCKS, IBLOCKS, I2BLOCKS and I3BLOCKS for the block size.
abbrev pub dblocks_end : ℕ → ℕ
dblocks_end size = n_dblocks * size

abbrev pub iblocks_end : ℕ → ℕ
iblocks_end size = dblocks_end size + n_iblocks * (size / 4) * size

abbrev pub i2blocks_end : ℕ → ℕ
i2blocks_end size = iblocks_end size + size / 4 * (size / 4) * size

abbrev pub i3blocks_end : ℕ → ℕ
i3blocks_end size = i2blocks_end size + size / 4 * (size / 4) * (size / 4) * size

-- Past the size of the directory (the tests on DBLOCKS and so on). An `int *` moved by
-- `k * sizeof(int)` points to element 4k.
unfoldable pub far_entry : ℕ → Inode → ℤ → M (Option DirectoryEntry)
far_entry size node offset =
    let block = div_ℤ offset size in
    let at_block = offset -ℤ pos size *ℤ block in
    let n = size / 4 in
    if ltb_ℤ (pos (dblocks_end size)) offset && leb_ℤ offset (pos (iblocks_end size))
    then (do
      let k = block -ℤ pos n_dblocks
      i ← element node.iblocks (div_ℤ k n)
      e ← indirect_copy (mod_ℤ k n) i at_block
      pure (some e))
    else if ltb_ℤ (pos (iblocks_end size)) offset && leb_ℤ offset (pos (i2blocks_end size))
    then (do
      let k = block -ℤ pos n_dblocks -ℤ pos (n_iblocks * n)
      indirect_block_array ← get_data_block node.i2block
      i ← block_element indirect_block_array (div_ℤ k n *ℤ pos 4)
      e ← indirect_copy (mod_ℤ k n) i at_block
      pure (some e))
    else if ltb_ℤ (pos (i2blocks_end size)) offset && leb_ℤ offset (pos (i3blocks_end size))
    then (do
      let k = block -ℤ pos n_dblocks -ℤ pos (n_iblocks * n) -ℤ pos (n * n)
      doubly_indirect_block_array ← get_data_block node.i3block
      j ← block_element doubly_indirect_block_array (div_ℤ (div_ℤ k n) n *ℤ pos 4)
      indirect_block_array ← get_data_block j
      i ← block_element indirect_block_array (div_ℤ k n *ℤ pos 4)
      e ← indirect_copy (mod_ℤ k n) i at_block
      pure (some e))
    else pure none

-- The entry at an offset up to the directory's size is looked for in the direct blocks alone.
unfoldable pub near_entry : ℕ → Inode → ℤ → M (Option DirectoryEntry)
near_entry size node offset = do
  let block = div_ℤ offset size
  b ← element node.dblocks block
  e ← direct_copy b (offset -ℤ pos size *ℤ block)
  pure (some e)

-- `byte_offset += sizeof(directory_entry)`, unless no entry was read.
unfoldable pub advance : ℤ → Option DirectoryEntry → M (Option DirectoryEntry)
advance i none = pure none
advance i (some e) = do
  t ← table_entry i
  set_table_entry i (record t { byte_offset = t.byte_offset +ℤ pos sizeof_directory_entry })
  pure (some e)

unfoldable pub read_entry : ℤ → FileTableEntry → M (Option DirectoryEntry)
read_entry i t = do
  sp ← gets λ s. s.superblock1
  size ← nat sp.size
  let offset = t.byte_offset
  e ←
      (if leb_ℤ offset t.file_inode.size
        then near_entry size t.file_inode offset
        else far_entry size t.file_inode offset)
  advance i e

unfoldable pub f_readdir : ℤ → M (Option DirectoryEntry)
f_readdir i = if ltb_ℤ i (pos 0) || leb_ℤ (pos file_table_size) i then pure none else do
  t ← table_entry i
  if ltb_unsigned (t.file_inode.size -ℤ t.byte_offset) sizeof_directory_entry
      then pure none
      else read_entry i t
