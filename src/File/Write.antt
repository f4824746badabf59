-- ===== src/File/Write.antt =====
-- `f_write` (filesystem.c): the block that the position or the end of the file stands in is filled
-- up, then further blocks are written. The space left in that block is 512 less an offset below
-- 512, so it is never 0 and the branch for `free_space == 0` is not reached.
use file_system_project.Prelude.{
  ℕ, zero, suc, ◌+◌, ◌-◌, ◌*◌, ◌==◌, ◌&&◌, ◌||◌, none, some, ltb, if◌then◌else◌,
}
use file_system_project.Prelude.Int.{
  ℤ, pos, negsuc, minus_one, ◌+ℤ◌, ◌*ℤ◌, div_ℤ, mod_ℤ, ltb_ℤ, ◌==ℤ◌,
}
use file_system_project.Memory.{Memory, cleared, fwrite}
use file_system_project.Layout.{block_size, reg}
use file_system_project.Access
use file_system_project.Store.{
  FileTableEntry, M, pure, ◌>>=◌, ◌>>◌, gets, undefined, table_entry, set_table_entry,
}
use file_system_project.Disk.{write_data_to_block, get_inode, update_single_inode_ondisk}
use file_system_project.BlockMap.{get_block_from_index, find_next_datablock}
use file_system_project.Directory.{nat}

-- `memcpy(datatowrite + j * size, buffer, size)` for each j below the count.
unfoldable pub copies : ℕ → ℕ → Memory → Memory
copies zero size buffer = cleared
copies (suc j) size buffer = fwrite (copies j size buffer) (j * size) buffer size

abbrev pub copies_of : ℤ → ℤ → Memory → M Memory
copies_of (pos zero) size buffer = pure cleared
copies_of (pos (suc n)) size buffer = nat size >>= λ k. pure (copies (suc n) k buffer)
copies_of (negsuc n) size buffer = pure cleared

-- The variables of the loop.
pub record Writing : Type 0 where
  pub left : ℕ
  pub total_block : ℤ
  pub datatowrite_offset : ℕ

-- The slot after its inode and offset changed, and the inode written to the disk.
unfoldable pub store_slot : ℤ → FileTableEntry → M (Unit {0})
store_slot fd t = do
  set_table_entry fd t
  update_single_inode_ondisk t.file_inode t.file_inode.inode_index
  pure tt

-- One round of `while (lefttowrite > 0)`. `datatowrite_offset` does not move.
unfoldable pub write_block : ℤ → Memory → ℤ → Writing → M Writing
unfolding store_slot
write_block fd datatowrite old_filesize w = do
  t ← table_entry fd
  (block, node) ← find_next_datablock t.file_inode w.total_block old_filesize t.byte_offset
  let size_to_write = if ltb w.left block_size then w.left else block_size
  let block_data = fwrite cleared 0 (λ k. datatowrite (w.datatowrite_offset + k)) size_to_write
  set_table_entry fd (record t { file_inode = node })
  write_data_to_block block block_data (pos size_to_write)
  let offset = t.byte_offset +ℤ pos size_to_write
  let size =
      if t.access ==ℤ Access.append
      then node.size +ℤ pos size_to_write
      else if ltb_ℤ node.size offset
      then offset
      else node.size
  store_slot fd (record t {
    file_inode = record node { size = size; last_block_index = block };
    byte_offset = offset;
  })
  pure (record w { left = w.left - size_to_write; total_block = w.total_block +ℤ pos 1 })

unfoldable pub write_loop : ℕ → ℤ → Memory → ℤ → Writing → M (Unit {0})
unfolding write_block
write_loop zero fd datatowrite old_filesize w = undefined
write_loop (suc fuel) fd datatowrite old_filesize w =
    let body = write_block fd datatowrite old_filesize w >>= λ w'.
    write_loop fuel fd datatowrite old_filesize w' in
    if w.left == 0 then pure tt else body

-- The block that is filled up: its first `offset` bytes stay, then comes the data.
unfoldable pub filled : Memory → ℕ → Memory → ℕ → Memory
filled last_data_block offset datatowrite n =
    fwrite (fwrite cleared 0 last_data_block offset) offset datatowrite n

-- Filling up the last block: to `index`, the block at the end of the file, when appending, else to
-- the block of the position. The result is the number of the next block.
unfoldable pub fill_block : ℤ → ℤ → Memory → Memory → ℤ → ℕ → ℕ → M ℤ
unfolding store_slot filled
fill_block fd index last_data_block datatowrite old_filesize total offset = do
  t ← table_entry fd
  sp ← gets λ s. s.superblock1
  let free_space = block_size - offset
  let n = if ltb total free_space then total else free_space
  let block_data = filled last_data_block offset datatowrite n
  let position_block = div_ℤ t.byte_offset block_size +ℤ pos 1
  (total_block, node) ←
      (if t.access ==ℤ Access.append
        then (write_data_to_block index block_data sp.size >> pure (pos 0, t.file_inode))
        else (find_next_datablock t.file_inode position_block old_filesize t.byte_offset >>= λ r.
            set_table_entry fd (record t { file_inode = r.1 })
            >> write_data_to_block r.0 block_data sp.size
            >> pure (position_block, r.1)))
  store_slot fd (record t {
    file_inode = record node { size = node.size +ℤ pos n };
    byte_offset = t.byte_offset +ℤ pos n;
  })
  get_inode node.inode_index
  pure (total_block +ℤ pos 1)

unfoldable pub write_regular : Memory → ℤ → ℤ → ℤ → M ℤ
unfolding fill_block write_loop
write_regular buffer size ntimes fd = do
  total ← nat (size *ℤ ntimes)
  datatowrite ← copies_of ntimes size buffer
  t ← table_entry fd
  let node = t.file_inode
  last ← get_block_from_index (div_ℤ node.size block_size) node
  elim last [
    | none ↦ undefined
    | some (last_data_block, index) ↦
        let appending = t.access ==ℤ Access.append in
        let old_offset = if appending then node.size else t.byte_offset in
        nat (mod_ℤ old_offset block_size) >>= λ offset. gets (λ s. s.superblock1) >>= λ sp.
        if ltb (block_size - offset) total && sp.free_block ==ℤ minus_one
        then pure minus_one
        else (fill_block fd index last_data_block datatowrite node.size total offset >>= λ next.
            write_loop (total + 1) fd datatowrite node.size (record {
              left = total - (block_size - offset);
              total_block = next;
              datatowrite_offset =
                  if ltb total (block_size - offset) then total else block_size - offset;
            })
            >> (table_entry fd >>= λ t'.
                set_table_entry fd (record t' { byte_offset = old_offset +ℤ pos total }))
            >> (table_entry fd >>= λ t'. get_inode t'.file_inode.inode_index)
            >> pure (pos total))
  ]

unfoldable pub f_write : Memory → ℤ → ℤ → ℤ → M ℤ
unfolding write_regular
f_write buffer size ntimes fd = do
  t ← table_entry fd
  if t.free_file || t.access ==ℤ Access.read
      then pure minus_one
      else if t.file_inode.type ==ℤ reg
          && (t.access ==ℤ Access.append
              || t.access ==ℤ Access.write
              || t.access ==ℤ Access.read_and_write)
      then write_regular buffer size ntimes fd
      else pure (pos 0)
