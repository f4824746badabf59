-- ===== src/BlockMap.antt =====
-- Which data block holds block number k of a file: direct, indirect, doubly and triply indirect
-- (filesystem.c: get_block_from_index, find_next_datablock, update_inodes_datablocks).
pub mod Lookup
pub mod Extend
use file_system_project.Prelude.{
  ℕ, ◌+◌, Bool, true, false, ◌&&◌, Option, none, some, List, [], ◌∷◌, ◌*◌, not, if◌then◌else◌,
}
use file_system_project.Prelude.Int.{
  ℤ, pos, minus_one, ◌+ℤ◌, ◌-ℤ◌, ◌*ℤ◌, div_ℤ, mod_ℤ, ltb_ℤ, leb_ℤ, ◌==ℤ◌,
}
use file_system_project.Memory.{Memory, fwrite, words, word_of_int}
use file_system_project.Layout.{Inode, block_size, n_dblocks, n_iblocks}
use file_system_project.Store.{
  M, pure, ◌>>=◌, ◌>>◌, gets, undefined, element, assign, block_element, read,
}
use file_system_project.Disk.{
  get_data_block, write_data_to_block, request_new_block, update_single_inode_ondisk,
}

-- The data block whose index an indirect block holds at `array_index`.
unfoldable pub indirect : ℤ → ℤ → M (Memory × ℤ)
indirect block array_index = do
  indirect_block ← get_data_block block
  b ← block_element indirect_block array_index
  m ← get_data_block b
  pure (m, b)

unfoldable pub direct_block : ℤ → Inode → M (Memory × ℤ)
direct_block block_index file_inode = do
  b ← element file_inode.dblocks block_index
  m ← get_data_block b
  pure (m, b)

unfoldable pub single_block : ℤ → Inode → M (Memory × ℤ)
unfolding indirect
single_block k file_inode = do
  i ← element file_inode.iblocks (div_ℤ k 128)
  indirect i (mod_ℤ k 128)

unfoldable pub double_block : ℤ → Inode → M (Memory × ℤ)
unfolding indirect
double_block k file_inode = do
  double_indirect_block ← get_data_block file_inode.i2block
  i ← block_element double_indirect_block (div_ℤ k 128)
  indirect i (mod_ℤ k 128)

unfoldable pub triple_block : ℤ → Inode → M (Memory × ℤ)
unfolding indirect
triple_block k file_inode = do
  triple_indirect_block ← get_data_block file_inode.i3block
  j ← block_element triple_indirect_block (div_ℤ (div_ℤ k 128) 128)
  double_indirect_block ← get_data_block j
  i ← block_element double_indirect_block (div_ℤ k 128)
  indirect i (mod_ℤ k 128)

abbrev found_block : M (Memory × ℤ) → M (Option (Memory × ℤ))
found_block m = m >>= λ r. pure (some r)

-- The block and its index in the data region; `none` is NULL, with the out-parameter untouched.
unfoldable pub get_block_from_index : ℤ → Inode → M (Option (Memory × ℤ))
get_block_from_index block_index file_inode =
    if leb_ℤ (pos 0) block_index && leb_ℤ block_index (pos 9)
    then found_block (direct_block block_index file_inode)
    else if leb_ℤ (pos 10) block_index && leb_ℤ block_index (pos 521)
    then found_block (single_block (block_index -ℤ pos 10) file_inode)
    else if leb_ℤ (pos 522) block_index && leb_ℤ block_index (pos 16905)
    then found_block (double_block (block_index -ℤ pos 522) file_inode)
    else if leb_ℤ (pos 16906) block_index && leb_ℤ block_index (pos 2114057)
    then found_block (triple_block (block_index -ℤ pos 16906) file_inode)
    else pure none

-- `enum inode_loc`; `nowhere` is -1, a block past the triply indirect ones.
pub data InodeLoc : Type 0 where
  dblock idblock i2block i3block nowhere : InodeLoc

-- `memcpy(data + i * sizeof(int), &value, sizeof(int))`.
unfoldable pub store_element : Memory → ℤ → ℤ → M Memory
store_element m (pos i) value = do
  block_element m (pos i)
  pure (fwrite m (4 * i) (words (word_of_int value ∷ [])) 4)
store_element m i value = undefined

unfoldable pub update_inodes_datablocks : InodeLoc → ℤ → Inode → ℤ → M Inode
update_inodes_datablocks InodeLoc.dblock total_block node data_index = do
  ds ← assign node.dblocks (total_block -ℤ pos 1) data_index
  update_single_inode_ondisk (record node { dblocks = ds }) node.inode_index
  pure (record node { dblocks = ds })
update_inodes_datablocks InodeLoc.idblock total_block node data_index = do
  let k = total_block -ℤ pos n_dblocks
  i ← element node.iblocks (div_ℤ k 128 +ℤ pos 1)
  data1 ← get_data_block i
  data1' ← store_element data1 (mod_ℤ k 128) data_index
  write_data_to_block i data1' (pos block_size)
  pure node
update_inodes_datablocks InodeLoc.i2block total_block node data_index = do
  let k = total_block -ℤ pos n_dblocks -ℤ pos 512
  data1 ← get_data_block node.i2block
  index2 ← block_element data1 (div_ℤ k 128)
  data2 ← get_data_block index2
  data2' ← store_element data2 (mod_ℤ k 128) data_index
  write_data_to_block index2 data2' (pos block_size)
  pure node
update_inodes_datablocks InodeLoc.i3block total_block node data_index = do
  let k = total_block -ℤ pos n_dblocks -ℤ pos 512 -ℤ pos 16384
  data1 ← get_data_block node.i3block
  index2 ← block_element data1 (div_ℤ (div_ℤ k 128) 128)
  get_data_block index2
  let index3 = div_ℤ k 128
  data3 ← get_data_block index3
  data3' ← store_element data3 (mod_ℤ k 128) data_index
  write_data_to_block index3 data3' (pos block_size)
  pure node
update_inodes_datablocks InodeLoc.nowhere total_block node data_index = pure node

unfoldable pub location_of : ℤ → InodeLoc
location_of total_block =
    let k = total_block -ℤ pos n_dblocks in
    if leb_ℤ total_block (pos n_dblocks)
    then InodeLoc.dblock
    else if leb_ℤ k (pos 512)
    then InodeLoc.idblock
    else if leb_ℤ (k -ℤ pos 512) (pos 16384)
    then InodeLoc.i2block
    else if leb_ℤ (k -ℤ pos 512 -ℤ pos 16384) (pos 2097152)
    then InodeLoc.i3block
    else InodeLoc.nowhere

-- A block at the start of an indirect block's range becomes that indirect block.
unfoldable pub claim_indirect : InodeLoc → ℤ → Inode → ℤ → M Inode
claim_indirect InodeLoc.idblock total_block node block =
    let k = total_block -ℤ pos n_dblocks in
    if not (div_ℤ k 128 *ℤ pos 128 ==ℤ k) then pure node else do
      is ← assign node.iblocks (div_ℤ k 128) block
      update_single_inode_ondisk (record node { iblocks = is }) node.inode_index
      pure (record node { iblocks = is })
claim_indirect _ total_block node block = pure node

-- The branch for a block that the file already has.
unfoldable pub present_datablock : InodeLoc → ℤ → Inode → M ℤ
present_datablock InodeLoc.dblock total_block node = element node.dblocks (total_block -ℤ pos 1)
present_datablock InodeLoc.idblock total_block node = do
  let k = total_block -ℤ pos n_dblocks
  data_index ← element node.iblocks (div_ℤ k 128)
  m ← get_data_block data_index
  block_element m (mod_ℤ k 128 -ℤ pos 1)
present_datablock InodeLoc.i2block total_block node = do
  let rest_block = total_block -ℤ pos n_dblocks -ℤ pos 512
  let data_offset1 = div_ℤ rest_block 128
  data1 ← get_data_block node.i2block
  data2_index ← block_element data1 data_offset1
  get_data_block data2_index
  pure (mod_ℤ (rest_block -ℤ pos 128 *ℤ data_offset1) 128)
present_datablock InodeLoc.i3block total_block node = do
  let rest_block = total_block -ℤ pos n_dblocks -ℤ pos 512 -ℤ pos 16384
  data1 ← get_data_block node.i3block
  let data_offset1 = div_ℤ (div_ℤ rest_block 128) 128
  data2_index ← block_element data1 data_offset1
  data2 ← get_data_block data2_index
  let rest_block' =
      rest_block -ℤ div_ℤ (div_ℤ (data_offset1 *ℤ pos block_size) 4 *ℤ pos block_size) 4
  data3_index ← block_element data2 (div_ℤ rest_block' 128)
  data3 ← get_data_block data3_index
  block_element data3 data3_index
present_datablock InodeLoc.nowhere total_block node = pure (pos 0)

-- The branch for a block past the end of the file.
unfoldable pub new_datablock : Inode → ℤ → M (ℤ × Inode)
new_datablock node total_block = do
  block ← request_new_block
  node' ← claim_indirect (location_of total_block) total_block node block
  node'' ← update_inodes_datablocks (location_of total_block) total_block node' block
  pure (block, node'')

-- The block to write, and the inode that the caller's pointer now leads to.
unfoldable pub find_next_datablock : Inode → ℤ → ℤ → ℤ → M (ℤ × Inode)
unfolding new_datablock present_datablock
find_next_datablock node total_block old_fileoffset current_offset =
    if leb_ℤ old_fileoffset current_offset
    then new_datablock node total_block
    else (present_datablock (location_of total_block) total_block node >>= λ b. pure (b, node))
