-- ===== src/Format/Accepted.antt =====
-- What the formatter's checks say of a disk that passes them.
use file_system_project.Prelude.{
  ℕ, ◌+◌, ◌-◌, ◌*◌, ◌≤◌, ◌<◌, ◌≡◌, sym, ◌∙◌, true, arith, ◌==◌, if◌then◌else◌,
}
use file_system_project.Prelude.Int.{pos, minus_one, ==ℤ_iff}
use file_system_project.Memory.{Memory, fread, int_at}
use file_system_project.Layout.{Superblock, Inode, superblock_at}
use file_system_project.Disk.Geometry.{block_of, block_address, inode_of, inode_address}
use file_system_project.Disk.FreeList.{FreeBlocks, FreeInodes, superblock_of}
use file_system_project.Format.{
  formatted_superblock, num_inodes, num_blocks_for_inodes, num_data_blocks,
}
use file_system_project.Format.FreeLists.{
  LinkedBlocks, LinkedInodes, FreeBlocks-linked, FreeInodes-linked, numbers,
}
use file_system_project.Format.Check.{
  check_super_block, check_inode, check_inode_region, check_block, check_data_region, test_disk,
}
use file_system_project.Format.CheckEach.{check_each-true}
use file_system_project.Format.Checked.{fread-superblock}

superblock_ext :
    (a b : Superblock)
    → a.size ≡ b.size
    → a.inode_offset ≡ b.inode_offset
    → a.data_offset ≡ b.data_offset
    → a.free_inode ≡ b.free_inode
    → a.free_block ≡ b.free_block
    → a.root_dir ≡ b.root_dir
    → a ≡ b
superblock_ext a b p q r s t u = λ i. record {
  size = p i;
  inode_offset = q i;
  data_offset = r i;
  free_inode = s i;
  free_block = t i;
  root_dir = u i;
}

check_inode-link :
    (n i : ℕ) (v : Inode)
    → 0 < i
    → check_inode n i v ≡ true
    → v.next_inode ≡ (if i == n - 1 then minus_one else pos (i + 1))
unfolding check_inode
check_inode-link n i v h c =
    ground (arith, ==ℤ_iff v.next_inode (if i == n - 1 then minus_one else pos (i + 1)))

module _ (mb : ℕ) (small : mb ≤ 16) (disk : Memory) where
  abbrev region : ℕ
  region = num_blocks_for_inodes mb

  superblock-passed :
      check_super_block region disk ≡ true → superblock_of disk ≡ formatted_superblock region
  unfolding check_super_block
  superblock-passed h =
      let sp = superblock_at (fread disk 512 512) in
      sym (fread-superblock disk)
      ∙ superblock_ext sp (formatted_superblock region) (ground (arith, ==ℤ_iff sp.size (pos 512)))
          (ground (arith, ==ℤ_iff sp.inode_offset (pos 0)))
          (ground (arith, ==ℤ_iff sp.data_offset (pos region)))
          (ground (arith, ==ℤ_iff sp.free_inode (pos 1)))
          (ground (arith, ==ℤ_iff sp.free_block (pos 1)))
          (ground (arith, ==ℤ_iff sp.root_dir (pos 0)))

  LinkedInodes-passed :
      superblock_of disk ≡ formatted_superblock region
      → check_inode_region disk ≡ true
      → LinkedInodes mb small 1 disk
  unfolding check_inode_region inode_of inode_address
  LinkedInodes-passed super h i lt ne = check_inode-link (num_inodes mb) i (inode_of disk i) ne (
      check_each-true _ (num_inodes mb) 0 (rw (fread-superblock disk ∙ super) at h) i (omega arith)
        (omega arith))

  LinkedBlocks-passed :
      check_data_region (mb * 1000000) region region disk ≡ true → LinkedBlocks mb small 1 disk
  unfolding check_data_region check_block block_of block_address
  LinkedBlocks-passed h j lt ne =
      let m = block_of region disk j in
      let link =
        check_each-true _ (num_data_blocks (mb * 1000000) region) 0 h j (omega arith)
          (omega arith) in
      ground (
        arith,
        link,
        ==ℤ_iff (int_at m 0)
            (if j == num_data_blocks (mb * 1000000) region - 1 then minus_one else pos (j + 1)),
      )

  regions-passed :
      test_disk mb disk ≡ true
      → (check_super_block region disk ≡ true)
        × (check_inode_region disk ≡ true)
        × (check_data_region (mb * 1000000) region region disk ≡ true)
  unfolding test_disk
  regions-passed h = ground arith

  -- A disk on which every assertion of `test_disk` holds, for a size of 1 to 16 MB, has the
  -- formatter's superblock; its free list runs from block 1 through all data blocks but block 0 in
  -- order, and its list of free inodes from inode 1 through all inodes but the root directory's.
  pub test_disk_sound :
      1 ≤ mb
      → test_disk mb disk ≡ true
      → (superblock_of disk ≡ formatted_superblock region)
        × FreeBlocks region disk (pos 1) (numbers 1 (num_data_blocks (mb * 1000000) region - 1))
        × FreeInodes region disk (pos 1) (numbers 1 (num_inodes mb - 1))
  test_disk_sound h passed =
      let (at_super, at_inodes, at_data) = regions-passed passed in
      let super = superblock-passed at_super in
      (
        super,
        FreeBlocks-linked mb small 1 disk (omega arith) (LinkedBlocks-passed at_data),
        FreeInodes-linked mb small 1 disk (omega arith) (LinkedInodes-passed super at_inodes),
      )
