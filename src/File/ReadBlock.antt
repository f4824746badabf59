-- ===== src/File/ReadBlock.antt =====
-- `f_read` (filesystem.c) of bytes that lie in one block.
use file_system_project.Prelude.{
  ℕ, zero, suc, ◌+◌, ◌*◌, ◌/◌, ◌%◌, ◌≤◌, ◌<◌, ◌≡◌, refl, ◌⊎◌, some, arith, get_elem?,
}
use file_system_project.Prelude.Int.{ℤ, pos, mod_ℤ}
use file_system_project.Memory.{Memory, fwrite}
use file_system_project.Layout.{Inode, block_size}
use file_system_project.Access
use file_system_project.Store.{FileSystem, FileTableEntry}
use file_system_project.Disk.Geometry.{IsMounted, IsBlock, block_of}
use file_system_project.BlockMap.Lookup.{Maps, get_block_from_index-Maps}
use file_system_project.File.Read.{Reading, f_read, read_times, read_blocks, copy_bytes}

read_blocks-done :
    (node : Inode) (bytes_to_read : ℤ) (r : Reading) (s : FileSystem)
    → r.size ≡ pos 0
    → read_blocks 3 node bytes_to_read r s ≡ some (r, s)
unfolding read_blocks
read_blocks-done node bytes_to_read r s h = ground arith

-- The rounds that are left when `size` is 0 read nothing.
read_times-done :
    (n : ℕ) (node : Inode) (o : ℤ) (r : Reading) (s : FileSystem)
    → r.size ≡ pos 0
    → (r' : Reading) × (read_times n node o r s ≡ some (r', s)) × (r'.buffer ≡ r.buffer)
unfolding read_times
read_times-done zero node o r s h = (r, refl, refl)
read_times-done (suc n) node o r s h =
    let r1 = record r { block_offset = mod_ℤ o block_size } in
    let (r', run, same) = read_times-done n node o r1 s h in
    (r', ground (arith, run, read_blocks-done node r1.size r1 s h), same)

size-copy_bytes :
    (k : ℕ) (block : Memory) (r : Reading) → r.size ≡ pos k → (copy_bytes k block r).size ≡ pos 0
unfolding copy_bytes
size-copy_bytes k block r h = ground arith

module _ {d : ℕ} {s : FileSystem} (v : IsMounted d s) (node : Inode) where
  -- One round of the outer loop.
  read_blocks-in_block :
      (q o b k : ℕ) (r : Reading)
      → r.size ≡ pos k
      → r.block_to_read ≡ pos q
      → r.block_offset ≡ pos o
      → 0 < k
      → o + k ≤ 511
      → IsBlock b
      → Maps d s.disk_image node q b
      → read_blocks 3 node (pos k) r s ≡ some (copy_bytes k (block_of d s.disk_image b) r, s)
  unfolding read_blocks copy_bytes
  read_blocks-in_block q o b k r size block offset lt fits hb at =
      ground (arith, get_block_from_index-Maps v node q b hb at)

  -- On a mounted disk, `f_read` of n_times items of k bytes, from a slot below 20 that is open to be
  -- read, at a position o in its file behind which the file has them all, and whose first item ends
  -- in front of byte 511 of the block: it returns k * n_times, the buffer has the first item and is
  -- otherwise as before, and nothing else has changed.
  pub f_read-in_block :
      (buffer : Memory) (k n_times fd o size b : ℕ) (t : FileTableEntry)
      → fd < 20
      → get_elem? s.file_table fd ≡ some t
      → t.file_inode ≡ node
      → (t.access ≡ Access.read) ⊎ (t.access ≡ Access.read_and_write)
      → t.byte_offset ≡ pos o
      → node.size ≡ pos size
      → 0 < k
      → 0 < n_times
      → o + k * n_times ≤ size
      → o % 512 + k ≤ 511
      → IsBlock b
      → Maps d s.disk_image node (o / 512) b
      → f_read buffer (pos k) (pos n_times) (pos fd) s
        ≡ some (
          (pos (k * n_times), fwrite buffer 0 (λ j. block_of d s.disk_image b (o % 512 + j)) k),
          s,
        )
  unfolding f_read read_times copy_bytes
  f_read-in_block buffer k zero fd o size b t lt at en ea eo es hk hn fits short hb maps =
      absurd (omega arith)
  f_read-in_block buffer k (suc n) fd o size b t lt at en ea eo es hk hn fits short hb maps =
      let start : Reading = record {
        buffer = buffer;
        buffer_index = 0;
        size = pos k;
        block_to_read = pos (o / 512);
        block_offset = pos (o % 512);
      } in
      let first =
        read_blocks-in_block (o / 512) (o % 512) b k start refl refl refl hk short hb maps in
      let copied = copy_bytes k (block_of d s.disk_image b) start in
      let (r', rest, same) =
        read_times-done n node (pos o) copied s
          (size-copy_bytes k (block_of d s.disk_image b) start refl) in
      let whole : k * suc n ≡ k * n + k = omega arith in ground (arith, first, rest, same, whole)
