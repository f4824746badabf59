-- ===== src/File/Read.antt =====
-- `f_read` (filesystem.c). The inner loop reads up to byte 511 of a block, counts `size` itself
-- down, and so runs in the first of the `n_times` rounds only.
use file_system_project.Prelude.{ℕ, zero, suc, ◌+◌, ◌&&◌, ◌||◌, none, some, if◌then◌else◌}
use file_system_project.Prelude.Int.{
  ℤ, pos, negsuc, minus_one, ◌+ℤ◌, ◌-ℤ◌, ◌*ℤ◌, div_ℤ, mod_ℤ, ltb_ℤ, leb_ℤ, ◌==ℤ◌,
}
use file_system_project.Memory.{Memory, fwrite}
use file_system_project.Layout.{Inode, file_table_size, block_size}
use file_system_project.Access
use file_system_project.Store.{M, pure, ◌>>=◌, undefined, table_entry}
use file_system_project.BlockMap.{get_block_from_index}
use file_system_project.Directory.{nat}

-- The variables of the loops.
pub record Reading : Type 0 where
  pub buffer : Memory
  pub buffer_index : ℕ
  pub size : ℤ
  pub block_to_read : ℤ
  pub block_offset : ℤ

abbrev pub nonneg_part : ℤ → ℕ
nonneg_part (pos n) = n
nonneg_part (negsuc n) = 0

-- `((char *) buffer)[buffer_index++] = block_to_read_from[block_offset++]`, n times.
unfoldable pub copy_bytes : ℕ → Memory → Reading → Reading
copy_bytes n block r =
    let start = nonneg_part r.block_offset in
    record r {
      buffer = fwrite r.buffer r.buffer_index (λ k. block (start + k)) n;
      buffer_index = r.buffer_index + n;
      size = r.size -ℤ pos n;
      block_to_read = r.block_to_read +ℤ pos 1;
      block_offset = r.block_offset +ℤ pos n;
    }

-- `while (size > 0 && bytes_to_read > 0)`, on fuel.
unfoldable pub read_blocks : ℕ → Inode → ℤ → Reading → M Reading
read_blocks zero node bytes_to_read r = undefined
read_blocks (suc fuel) node bytes_to_read r =
    let body = get_block_from_index r.block_to_read node >>= λ b. elim b [
      | none ↦ undefined
      | some (block, _) ↦
          let remaining = pos 511 -ℤ r.block_offset in
          let n = if leb_ℤ r.size remaining then r.size else remaining in
          nat r.block_offset >>= λ _.
          nat n >>= λ count. read_blocks fuel node n (copy_bytes count block r)
    ] in
    if ltb_ℤ (pos 0) r.size && ltb_ℤ (pos 0) bytes_to_read then body else pure r

-- `for (int i = 0; i < n_times; i++)`: each round takes `bytes_to_read` and `block_offset` anew.
unfoldable pub read_times : ℕ → Inode → ℤ → Reading → M Reading
unfolding read_blocks copy_bytes
read_times zero node file_offset r = pure r
read_times (suc n) node file_offset r =
    let r' = record r { block_offset = mod_ℤ file_offset block_size } in
    read_blocks 3 node r'.size r' >>= λ r''. read_times n node file_offset r''

-- The result, and the buffer after the call.
unfoldable pub f_read : Memory → ℤ → ℤ → ℤ → M (ℤ × Memory)
unfolding read_times
f_read buffer size n_times file_descriptor =
    if ltb_ℤ file_descriptor (pos 0) || leb_ℤ (pos file_table_size) file_descriptor
    then pure (minus_one, buffer)
    else do
      t ← table_entry file_descriptor
      let file_size = t.file_inode.size
      let total = size *ℤ n_times
      let remaining = file_size -ℤ t.byte_offset
      if t.access ==ℤ Access.append || t.access ==ℤ Access.write
          then pure (minus_one, buffer)
          else if leb_ℤ size (pos 0)
              || leb_ℤ n_times (pos 0)
              || ltb_ℤ file_size size
              || ltb_ℤ file_size total
              || ltb_ℤ remaining size
              || ltb_ℤ remaining total
          then pure (minus_one, buffer)
          else do
            n ← nat n_times
            r ← read_times n t.file_inode t.byte_offset (record {
              buffer = buffer;
              buffer_index = 0;
              size = size;
              block_to_read = div_ℤ t.byte_offset block_size;
              block_offset = pos 0;
            })
            pure (total, r.buffer)
