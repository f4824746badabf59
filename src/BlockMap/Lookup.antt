-- ===== src/BlockMap/Lookup.antt =====
-- `get_block_from_index` (filesystem.c) against the map that an inode stands for.
use file_system_project.Prelude.{
  ℕ, ◌+◌, ◌-◌, ◌*◌, ◌/◌, ◌%◌, ◌≤◌, ◌<◌, ◌≡◌, none, some, arith, get_elem?,
}
use file_system_project.Prelude.Int.{ℤ, pos}
use file_system_project.Memory.{Memory, int_at}
use file_system_project.Layout.{Inode}
use file_system_project.Store.{FileSystem}
use file_system_project.Disk.Geometry.{IsMounted, IsBlock, block_of, get_data_block-ok}
use file_system_project.BlockMap.{
  get_block_from_index, direct_block, single_block, double_block, triple_block, indirect,
}

-- Element i of the data block b, as an `int` array.
abbrev pub pointer : ℕ → Memory → ℕ → ℕ → ℤ
pointer d m b i = int_at (block_of d m b) (4 * i)

-- Block k of the file is data block b: among the 10 direct blocks, through one of 4 indirect blocks
-- of 128 pointers, or through the doubly indirect block.
pub data Maps (d : ℕ) (m : Memory) (node : Inode) (k b : ℕ) : Type 0 where
  direct : k < 10 → get_elem? node.dblocks k ≡ some (pos b) → Maps d m node k b
  single :
      (r i : ℕ)
      → k ≡ 10 + r
      → r < 512
      → get_elem? node.iblocks (r / 128) ≡ some (pos i)
      → IsBlock i
      → pointer d m i (r % 128) ≡ pos b
      → Maps d m node k b
  double :
      (r j i : ℕ)
      → k ≡ 522 + r
      → r < 16384
      → node.i2block ≡ pos j
      → IsBlock j
      → pointer d m j (r / 128) ≡ pos i
      → IsBlock i
      → pointer d m i (r % 128) ≡ pos b
      → Maps d m node k b

module _ {d : ℕ} {s : FileSystem} (v : IsMounted d s) (node : Inode) where
  indirect-ok :
      (i r b : ℕ)
      → IsBlock b
      → IsBlock i
      → r < 128
      → pointer d s.disk_image i r ≡ pos b
      → indirect (pos i) (pos r) s ≡ some ((block_of d s.disk_image b, pos b), s)
  unfolding indirect
  indirect-ok i r b hb hi lt p = ground (arith, get_data_block-ok v b hb, get_data_block-ok v i hi)

  -- The doubly indirect block holds the indirect block's index.
  double_block-ok :
      (r j i b : ℕ)
      → IsBlock b
      → r < 16384
      → node.i2block ≡ pos j
      → IsBlock j
      → pointer d s.disk_image j (r / 128) ≡ pos i
      → IsBlock i
      → pointer d s.disk_image i (r % 128) ≡ pos b
      → double_block (pos r) node s ≡ some ((block_of d s.disk_image b, pos b), s)
  unfolding double_block
  double_block-ok r j i b hb lt ej hj pj hi p =
      ground (arith, get_data_block-ok v j hj, indirect-ok i (r % 128) b hb hi (omega arith) p)

  single_block-ok :
      (r i b : ℕ)
      → IsBlock b
      → r < 512
      → get_elem? node.iblocks (r / 128) ≡ some (pos i)
      → IsBlock i
      → pointer d s.disk_image i (r % 128) ≡ pos b
      → single_block (pos r) node s ≡ some ((block_of d s.disk_image b, pos b), s)
  unfolding single_block
  single_block-ok r i b hb lt ei hi p =
      ground (arith, indirect-ok i (r % 128) b hb hi (omega arith) p)

  direct_block-ok :
      (k b : ℕ)
      → IsBlock b
      → get_elem? node.dblocks k ≡ some (pos b)
      → direct_block (pos k) node s ≡ some ((block_of d s.disk_image b, pos b), s)
  unfolding direct_block
  direct_block-ok k b hb e = ground (arith, get_data_block-ok v b hb)

  triple_block-faults :
      (r t j : ℕ)
      → 16384 ≤ r
      → node.i3block ≡ pos t
      → r < 2097152
      → IsBlock t
      → pointer d s.disk_image t (r / 128 / 128) ≡ pos j
      → IsBlock j
      → triple_block (pos r) node s ≡ none
  unfolding triple_block
  triple_block-faults r t j lo et hi ht pt hj =
      ground (arith, get_data_block-ok v t ht, get_data_block-ok v j hj)

  -- On a mounted disk, block k of a file, for k up to the doubly indirect ones, is looked up as the
  -- data block b that the inode maps k to: its bytes and its index, and nothing changes.
  pub get_block_from_index-Maps :
      (k b : ℕ)
      → IsBlock b
      → Maps d s.disk_image node k b
      → get_block_from_index (pos k) node s ≡ some (some (block_of d s.disk_image b, pos b), s)
  unfolding get_block_from_index
  get_block_from_index-Maps k b hb (direct lt e) = ground (arith, direct_block-ok k b hb e)
  get_block_from_index-Maps k b hb (single r i e lt ei hi p) =
      let at : 10 + r - 10 ≡ r = omega arith in
      rw e (ground (arith, single_block-ok r i b hb lt ei hi p, at))
  get_block_from_index-Maps k b hb (double r j i e lt ej hj pj hi p) =
      let at : 522 + r - 522 ≡ r = omega arith in
      rw e (ground (arith, double_block-ok r j i b hb lt ej hj pj hi p, at))

  -- On a mounted disk, from the 16384th block behind the first triply indirect one on, up to the
  -- last, the lookup reads the doubly indirect block past its 128 pointers, for an inode whose
  -- triply indirect block points to a block.
  pub get_block_from_index-triple_faults :
      (r t j : ℕ)
      → 16384 ≤ r
      → r < 2097152
      → node.i3block ≡ pos t
      → IsBlock t
      → pointer d s.disk_image t (r / 128 / 128) ≡ pos j
      → IsBlock j
      → get_block_from_index (pos (16906 + r)) node s ≡ none
  unfolding get_block_from_index
  get_block_from_index-triple_faults r t j lo hi et ht pt hj =
      let at : 16906 + r - 16906 ≡ r = omega arith in
      ground (arith, triple_block-faults r t j lo et hi ht pt hj, at)
