-- ===== src/Keeps/BlockMap.antt =====
-- The operations on the block map of a file keep what Keeps says.
use file_system_project.Prelude.{ℕ}
use file_system_project.Prelude.Int.{ℤ, pos, negsuc}
use file_system_project.Memory.{Memory}
use file_system_project.Layout.{Inode}
use file_system_project.BlockMap.{
  InodeLoc, dblock, idblock, i2block, i3block, nowhere, indirect, direct_block, single_block,
  double_block, triple_block, get_block_from_index, store_element, update_inodes_datablocks,
  claim_indirect, present_datablock, new_datablock, find_next_datablock,
}
use file_system_project.Store.{FileSystem}
use file_system_project.Keeps.{IsReady, IsReady-IsBesideTable, IsBesideTable, Keeps}
use file_system_project.Keeps.Table.{table_rules}

module _ {P : FileSystem → Type 0} ⦃o : IsBesideTable P⦄ where
  Keeps-indirect : (i k : ℤ) → Keeps P (indirect i k)
  unfolding indirect
  Keeps-indirect i k = search table_rules depth 12

  Keeps-direct_block : (k : ℤ) (node : Inode) → Keeps P (direct_block k node)
  unfolding direct_block
  Keeps-direct_block k node = search table_rules depth 12

  Keeps-single_block : (k : ℤ) (node : Inode) → Keeps P (single_block k node)
  unfolding single_block
  Keeps-single_block k node = search (table_rules, Keeps-indirect) depth 12

  Keeps-double_block : (k : ℤ) (node : Inode) → Keeps P (double_block k node)
  unfolding double_block
  Keeps-double_block k node = search (table_rules, Keeps-indirect) depth 12

  Keeps-triple_block : (k : ℤ) (node : Inode) → Keeps P (triple_block k node)
  unfolding triple_block
  Keeps-triple_block k node = search (table_rules, Keeps-indirect) depth 12

  pub Keeps-get_block_from_index : (k : ℤ) (node : Inode) → Keeps P (get_block_from_index k node)
  unfolding get_block_from_index
  Keeps-get_block_from_index k node =
      search
        (
          table_rules, Keeps-direct_block, Keeps-single_block, Keeps-double_block,
          Keeps-triple_block,
        )
        depth 12

  Keeps-store_element : (m : Memory) (i value : ℤ) → Keeps P (store_element m i value)
  unfolding store_element
  Keeps-store_element m (pos i) value = search table_rules depth 12
  Keeps-store_element m (negsuc i) value = search table_rules

module _ {d : ℕ} where
  Keeps-update_inodes_datablocks :
      (at : InodeLoc) (total_block : ℤ) (node : Inode) (data_index : ℤ)
      → Keeps (IsReady d) (update_inodes_datablocks at total_block node data_index)
  unfolding update_inodes_datablocks
  Keeps-update_inodes_datablocks dblock total_block node b = search table_rules depth 20
  Keeps-update_inodes_datablocks idblock total_block node b =
      search (table_rules, Keeps-store_element) depth 20
  Keeps-update_inodes_datablocks i2block total_block node b =
      search (table_rules, Keeps-store_element) depth 20
  Keeps-update_inodes_datablocks i3block total_block node b =
      search (table_rules, Keeps-store_element) depth 20
  Keeps-update_inodes_datablocks nowhere total_block node b = search table_rules

  Keeps-claim_indirect :
      (at : InodeLoc) (total_block : ℤ) (node : Inode) (block : ℤ)
      → Keeps (IsReady d) (claim_indirect at total_block node block)
  unfolding claim_indirect
  Keeps-claim_indirect dblock total_block node b = search table_rules
  Keeps-claim_indirect idblock total_block node b = search table_rules depth 12
  Keeps-claim_indirect i2block total_block node b = search table_rules
  Keeps-claim_indirect i3block total_block node b = search table_rules
  Keeps-claim_indirect nowhere total_block node b = search table_rules

module _ {P : FileSystem → Type 0} ⦃o : IsBesideTable P⦄ where
  Keeps-present_datablock :
      (at : InodeLoc) (total_block : ℤ) (node : Inode)
      → Keeps P (present_datablock at total_block node)
  unfolding present_datablock
  Keeps-present_datablock dblock total_block node = search table_rules
  Keeps-present_datablock idblock total_block node = search table_rules depth 20
  Keeps-present_datablock i2block total_block node = search table_rules depth 20
  Keeps-present_datablock i3block total_block node = search table_rules depth 20
  Keeps-present_datablock nowhere total_block node = search table_rules

module _ {d : ℕ} where
  Keeps-new_datablock :
      (node : Inode) (total_block : ℤ) → Keeps (IsReady d) (new_datablock node total_block)
  unfolding new_datablock
  Keeps-new_datablock node total_block =
      search (table_rules, Keeps-claim_indirect, Keeps-update_inodes_datablocks) depth 20

  pub Keeps-find_next_datablock :
      (node : Inode) (total_block old_fileoffset current_offset : ℤ)
      → Keeps (IsReady d) (find_next_datablock node total_block old_fileoffset current_offset)
  unfolding find_next_datablock
  Keeps-find_next_datablock node total_block old_fileoffset current_offset =
      search (table_rules, Keeps-new_datablock, Keeps-present_datablock) depth 20
