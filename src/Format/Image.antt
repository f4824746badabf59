-- ===== src/Format/Image.antt =====
-- What both formatters (format.c, format_dir.c) have in common: the boot block, the superblock, the
-- inodes and the data blocks are written in this order, with spaces between them.
use file_system_project.Prelude.{ℕ, ◌+◌, ◌-◌, ◌*◌, ◌≤◌, ◌<◌, ◌≡◌, refl, ◌∙◌, ap, inr, arith}
use file_system_project.Memory.{Memory, fread}
use file_system_project.Memory.Transfer.{fread-fwrite_self, fread-fwrite_disjoint}
use file_system_project.Layout.{
  Superblock, Inode, superblock_at, inode_at, inode_bytes, superblock_bytes, block_size,
  sizeof_inode,
}
use file_system_project.Layout.RoundTrip.{
  IsInode, IsSuperblock, inode_at-inode_bytes, fread-inode_bytes, superblock_at-superblock_bytes,
  fread-superblock_bytes,
}
use file_system_project.Disk.Geometry.{block_of, inode_of, block_address, inode_address}
use file_system_project.Disk.FreeList.{superblock_of}
use file_system_project.Format.{boot_text, empty_output}
use file_system_project.SequentialFile.{
  Output, put, put_each, position-put_each, fread-put_each, fread-put_each_below,
}

module _ (d inodes data_blocks : ℕ) (sp : Superblock) (node : ℕ → Inode) (block : ℕ → Memory) where
  abbrev spaces : Memory
  spaces _ = b' '

  abbrev before_inodes : Output
  before_inodes = put spaces 488 (put (superblock_bytes sp) 24 (put boot_text 512 empty_output))

  abbrev after_inodes : Output
  after_inodes = put_each (λ i. inode_bytes (node i)) sizeof_inode inodes 0 before_inodes

  abbrev before_data : Output
  before_data = put spaces (d * block_size - inodes * sizeof_inode) after_inodes

  abbrev pub written : Memory
  written = (put_each block block_size data_blocks 0 before_data).image

  position-before_inodes : before_inodes.position ≡ 1024
  unfolding put
  position-before_inodes = refl

  module _ (fits : inodes * 116 ≤ d * 512) where
    position-before_data : before_data.position ≡ 1024 + d * 512
    unfolding put
    position-before_data = omega (
      arith,
      position-put_each (λ i. inode_bytes (node i)) 116 inodes 0 before_inodes,
      position-before_inodes,
      fits,
    )

    fread-written_below :
        (a k : ℕ) → a + k ≤ 1024 + d * 512 → fread written a k ≡ fread before_data.image a k
    fread-written_below a k h =
        fread-put_each_below block 512 data_blocks 0 before_data a k
          (omega (arith, position-before_data))

    -- Data block j is the j-th that was written.
    pub block_of-written : (j : ℕ) → j < data_blocks → block_of d written j ≡ fread (block j) 0 512
    unfolding block_of block_address
    block_of-written j h =
        let start : 1024 + d * 512 + j * 512 ≡ before_data.position + j * 512 =
          omega (arith, position-before_data) in
        let item : 0 + j ≡ j = omega arith in
        ap (λ a. fread written a 512) start
        ∙ fread-put_each block 512 data_blocks 0 j before_data h
        ∙ ap (λ k. fread (block k) 0 512) item

    -- The padding and the data lie behind what is read.
    fread-before_data :
        (a k : ℕ)
        → a + k ≤ 1024 + inodes * 116
        → fread before_data.image a k ≡ fread after_inodes.image a k
    unfolding put
    fread-before_data a k h = fread-fwrite_disjoint _ _ _ _ a k (
        inr (
          omega (
            arith,
            position-put_each (λ i. inode_bytes (node i)) 116 inodes 0 before_inodes,
            position-before_inodes,
          )))

    -- Inode i is read back as the i-th that was written.
    pub inode_of-written : (i : ℕ) → i < inodes → IsInode (node i) → inode_of written i ≡ node i
    unfolding inode_of inode_address
    inode_of-written i h w =
        let start : 1024 + i * 116 ≡ before_inodes.position + i * 116 =
          omega (arith, position-before_inodes) in
        let item : 0 + i ≡ i = omega arith in
        ap inode_at (
          fread-written_below (1024 + i * 116) 116 (omega (arith, fits))
          ∙ fread-before_data (1024 + i * 116) 116 (omega arith)
          ∙ ap (λ a. fread after_inodes.image a 116) start
          ∙ fread-put_each (λ i. inode_bytes (node i)) 116 inodes 0 i before_inodes h
          ∙ ap (λ k. fread (inode_bytes (node k)) 0 116) item
          ∙ fread-inode_bytes (node i) w)
        ∙ inode_at-inode_bytes (node i) w

    -- What lies in front of the inodes.
    fread-front : (a k : ℕ) → a + k ≤ 1024 → fread written a k ≡ fread before_inodes.image a k
    fread-front a k h =
        fread-written_below a k (omega arith)
        ∙ fread-before_data a k (omega arith)
        ∙ fread-put_each_below (λ i. inode_bytes (node i)) 116 inodes 0 before_inodes a k
            (omega (arith, position-before_inodes))

    -- The boot block is the formatters' text.
    pub boot_of-written : fread written 0 512 ≡ fread boot_text 0 512
    unfolding put
    boot_of-written =
        fread-front 0 512 (omega arith)
        ∙ fread-fwrite_disjoint _ _ 536 488 0 512 (inr (omega arith))
        ∙ fread-fwrite_disjoint _ _ 512 24 0 512 (inr (omega arith))
        ∙ fread-fwrite_self _ boot_text 0 512

    -- The superblock that a mount reads is the one that was written.
    pub superblock_of-written : IsSuperblock sp → superblock_of written ≡ sp
    unfolding put
    superblock_of-written w =
        ap superblock_at (
          fread-front 512 24 (omega arith)
          ∙ fread-fwrite_disjoint _ _ 536 488 512 24 (inr (omega arith))
          ∙ fread-fwrite_self _ (superblock_bytes sp) 512 24
          ∙ fread-superblock_bytes sp)
        ∙ superblock_at-superblock_bytes sp w
