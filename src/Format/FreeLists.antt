-- ===== src/Format/FreeLists.antt =====
-- The lists of free blocks and free inodes on a formatted disk.
use mathlib.Core.Path.{subst}
use file_system_project.Prelude.{
  ℕ, zero, suc, ◌+◌, ◌-◌, ◌*◌, ◌≤◌, ◌<◌, ◌≡◌, refl, sym, ◌∙◌, ap, inl, inr, Bool-cases, false, List,
  [], ◌∷◌, arith, ◌==◌, if◌then◌else◌,
}
use file_system_project.Prelude.Int.{ℤ, pos, minus_one, IsInt}
use file_system_project.Memory.{Memory, fread, int_at, words, word_of_int}
use file_system_project.Memory.Words.{fread-words, int_at-words}
use file_system_project.Disk.Geometry.{block_of, inode_of}
use file_system_project.Disk.FreeList.{FreeBlocks, FreeInodes, superblock_of}
use file_system_project.Format.{
  write_disk, formatted_block, num_inodes, num_blocks_for_inodes, num_data_blocks,
}
use file_system_project.Format.Regions.{
  block_of-write_disk, inode_of-write_disk, superblock_of-write_disk,
}

-- first, first + 1, ..., n numbers.
abbrev pub numbers : ℕ → ℕ → List ℕ
numbers first zero = []
numbers first (suc n) = first ∷ numbers (first + 1) n

pub int_at-link : (z : ℤ) → IsInt z → int_at (fread (words (word_of_int z ∷ [])) 0 512) 0 ≡ z
int_at-link z h =
    ap (λ m. int_at m 0) (fread-words (word_of_int z ∷ []) 512 (omega arith))
    ∙ int_at-words (word_of_int z ∷ []) 0 z h refl

module _ (mb : ℕ) (small : mb ≤ 16) where
  abbrev size_in_blocks : ℕ
  size_in_blocks = num_blocks_for_inodes mb

  abbrev nodes : ℕ
  nodes = num_inodes mb

  abbrev blocks : ℕ
  blocks = num_data_blocks (mb * 1000000) size_in_blocks

  -- The first word of a free block.
  pub next-formatted_block :
      (j : ℕ)
      → j < blocks
      → 0 < j
      → int_at (block_of size_in_blocks (write_disk mb) j) 0
        ≡ (if j == blocks - 1 then minus_one else pos (j + 1))
  unfolding formatted_block
  next-formatted_block j h ne =
      let link = ap (λ m. int_at m 0) (block_of-write_disk mb small j h) in
      elim (Bool-cases (j == blocks - 1)) [
        | inl last ↦ rw (link, not_root, last) (int_at-link minus_one (omega arith))
        | inr inner ↦ rw (link, not_root, inner) (int_at-link (pos (j + 1)) (omega arith))
      ]
    where
      not_root : (j == 0) ≡ false
      not_root = ground arith

  -- A disk whose blocks, or inodes, from this number on are linked the formatters' way.
  abbrev pub LinkedBlocks : ℕ → Memory → Type 0
  LinkedBlocks low m =
      (j : ℕ)
      → j < blocks
      → low ≤ j
      → int_at (block_of size_in_blocks m j) 0
        ≡ (if j == blocks - 1 then minus_one else pos (j + 1))

  abbrev pub LinkedInodes : ℕ → Memory → Type 0
  LinkedInodes low m =
      (i : ℕ)
      → i < nodes
      → low ≤ i
      → (inode_of m i).next_inode ≡ (if i == nodes - 1 then minus_one else pos (i + 1))

  -- The numbers from `first` on, as many as the second argument says.
  FreeBlocks-from :
      (low : ℕ) (m : Memory)
      → LinkedBlocks low m
      → (n first : ℕ) → low ≤ first
      → first + n ≡ blocks
      → FreeBlocks size_in_blocks m (if n == 0 then minus_one else pos first) (numbers first n)
  FreeBlocks-from low m links zero first h e = refl
  FreeBlocks-from low m links (suc n) first h e = (
    ground arith,
    omega arith,
    subst (λ z. FreeBlocks size_in_blocks m z (numbers (first + 1) n)) (sym next)
        (FreeBlocks-from low m links n (first + 1) (omega arith) (omega arith)),
  )
    where
      next :
          int_at (block_of size_in_blocks m first) 0
          ≡ (if n == 0 then minus_one else pos (first + 1))
      next = ground (arith, links first (omega arith) h)

  pub FreeBlocks-linked :
      (low : ℕ) (m : Memory)
      → low < blocks
      → LinkedBlocks low m
      → FreeBlocks size_in_blocks m (pos low) (numbers low (blocks - low))
  FreeBlocks-linked low m h links =
      subst (λ z. FreeBlocks size_in_blocks m z (numbers low (blocks - low))) head
        (FreeBlocks-from low m links (blocks - low) low (omega arith) (omega arith))
    where
      head : (if blocks - low == 0 then minus_one else pos low) ≡ pos low
      head = ground arith

  FreeInodes-from :
      (low : ℕ) (m : Memory)
      → LinkedInodes low m
      → (n first : ℕ) → low ≤ first
      → first + n ≡ nodes
      → FreeInodes size_in_blocks m (if n == 0 then minus_one else pos first) (numbers first n)
  FreeInodes-from low m links zero first h e = refl
  FreeInodes-from low m links (suc n) first h e = (
    ground arith,
    omega arith,
    subst (λ z. FreeInodes size_in_blocks m z (numbers (first + 1) n)) (sym next)
        (FreeInodes-from low m links n (first + 1) (omega arith) (omega arith)),
  )
    where
      next : (inode_of m first).next_inode ≡ (if n == 0 then minus_one else pos (first + 1))
      next = ground (arith, links first (omega arith) h)

  pub FreeInodes-linked :
      (low : ℕ) (m : Memory)
      → low < nodes
      → LinkedInodes low m
      → FreeInodes size_in_blocks m (pos low) (numbers low (nodes - low))
  FreeInodes-linked low m h links =
      subst (λ z. FreeInodes size_in_blocks m z (numbers low (nodes - low))) head
        (FreeInodes-from low m links (nodes - low) low (omega arith) (omega arith))
    where
      head : (if nodes - low == 0 then minus_one else pos low) ≡ pos low
      head = ground arith

  next-formatted_inode : LinkedInodes 1 (write_disk mb)
  next-formatted_inode i h ne =
      ap (λ v. v.next_inode) (inode_of-write_disk mb small i h) ∙ ground arith

  -- The free list of a disk that format.c writes, of 1 to 16 MB, runs through all data blocks but
  -- block 0, each once and in order, from the head that the disk's superblock names.
  pub FreeBlocks-write_disk :
      1 ≤ mb
      → FreeBlocks size_in_blocks
          (write_disk mb)
          (superblock_of (write_disk mb)).free_block
          (numbers 1 (blocks - 1))
  FreeBlocks-write_disk h =
      subst (λ z. FreeBlocks size_in_blocks (write_disk mb) z (numbers 1 (blocks - 1)))
        (ap (λ sp. sp.free_block) (sym (superblock_of-write_disk mb small)))
        (FreeBlocks-linked 1 (write_disk mb) (omega arith) next-formatted_block)

  -- The list of free inodes of a disk that format.c writes, of 1 to 16 MB, runs through all inodes
  -- but the root directory's, each once and in order, and all of them lie in the inode region.
  pub FreeInodes-write_disk :
      1 ≤ mb
      → FreeInodes size_in_blocks
          (write_disk mb)
          (superblock_of (write_disk mb)).free_inode
          (numbers 1 (nodes - 1))
  FreeInodes-write_disk h =
      subst (λ z. FreeInodes size_in_blocks (write_disk mb) z (numbers 1 (nodes - 1)))
        (ap (λ sp. sp.free_inode) (sym (superblock_of-write_disk mb small)))
        (FreeInodes-linked 1 (write_disk mb) (omega arith) next-formatted_inode)
