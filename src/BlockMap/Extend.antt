-- ===== src/BlockMap/Extend.antt =====
-- `find_next_datablock` (filesystem.c) at the end of a file with direct blocks only.
use mathlib.Core.Path.{subst}
use file_system_project.Prelude.{
  ℕ, zero, suc, ◌-◌, ◌<◌, ◌≡◌, ◌≢◌, refl, sym, true, some, List, [], ◌∷◌, arith, set, length,
  get_elem?-some, get_elem?-set_self, length-set, ◌∙◌,
}
use file_system_project.Prelude.Int.{ℤ, pos, leb_ℤ}
use file_system_project.Memory.{Memory, fwrite}
use file_system_project.Memory.Words.{AllInt}
use file_system_project.Layout.{Inode, inode_bytes}
use file_system_project.Layout.RoundTrip.{IsInode, IsSuperblock}
use file_system_project.Store.{FileSystem}
use file_system_project.Disk.Geometry.{
  IsMounted, IsBlock, InRegion, block_of, inode_of, inode_address, with_image,
  update_single_inode_ondisk-ok,
}
use file_system_project.Disk.Blocks.{
  inode_of-fwrite_self, inode_of-fwrite_ne, block_of-fwrite_inode,
}
use file_system_project.Disk.FreeList.{FreeBlocks, FreeBlocks-frame, request_new_block-pops}
use file_system_project.BlockMap.{
  InodeLoc, find_next_datablock, claim_indirect, location_of, update_inodes_datablocks,
}
use file_system_project.BlockMap.Lookup.{Maps, direct}

pub AllInt-set : (zs : List ℤ) (k b : ℕ) → IsBlock b → AllInt zs → AllInt (set zs k (pos b))
AllInt-set [] k b hb h = tt
AllInt-set (z ∷ zs) zero b hb h = (omega arith, h.1)
AllInt-set (z ∷ zs) (suc k) b hb h = (h.0, AllInt-set zs k b hb h.1)

-- The inode with block k set.
abbrev pub with_dblock : Inode → ℕ → ℕ → Inode
with_dblock node k b = record node { dblocks = set node.dblocks k (pos b) }

IsInode-with_dblock :
    (node : Inode) (k b : ℕ) → IsBlock b → IsInode node → IsInode (with_dblock node k b)
IsInode-with_dblock node k b hb w = record {
  disk_identifier = w.disk_identifier;
  parent_inode_index = w.parent_inode_index;
  next_inode = w.next_inode;
  size = w.size;
  uid = w.uid;
  gid = w.gid;
  ctime = w.ctime;
  mtime = w.mtime;
  atime = w.atime;
  type = w.type;
  permission = w.permission;
  inode_index = w.inode_index;
  dblocks = AllInt-set node.dblocks k b hb w.dblocks;
  iblocks = w.iblocks;
  i2block = w.i2block;
  i3block = w.i3block;
  last_block_index = w.last_block_index;
  length-dblocks = length-set node.dblocks k (pos b) ∙ w.length-dblocks;
  length-iblocks = w.length-iblocks;
}

location_of-direct : (k : ℕ) → k < 10 → location_of (pos (suc k)) ≡ InodeLoc.dblock
unfolding location_of
location_of-direct k lt = ground arith

abbrev pub image_with_dblock : Memory → ℕ → Inode → ℕ → ℕ → Memory
image_with_dblock m i node k b = fwrite m (inode_address i) (inode_bytes (with_dblock node k b)) 116

update_dblock-ok :
    {d : ℕ} {s : FileSystem}
    → IsMounted d s
    → (node : Inode) (k i b : ℕ) → k < length node.dblocks
    → node.inode_index ≡ pos i
    → InRegion d i
    → update_inodes_datablocks InodeLoc.dblock (pos (suc k)) node (pos b) s
      ≡ some (with_dblock node k b, with_image s (image_with_dblock s.disk_image i node k b))
unfolding update_inodes_datablocks
update_dblock-ok v node k i b lt ei hi =
    let (old, at) = get_elem?-some node.dblocks k lt in
    let index : suc k - 1 ≡ k = omega arith in
    ground (arith, at, index, update_single_inode_ondisk-ok v (with_dblock node k b) i hi)

claim_indirect-direct :
    (node : Inode) (k : ℕ) (b : ℤ) (s : FileSystem)
    → claim_indirect InodeLoc.dblock (pos (suc k)) node b s ≡ some (node, s)
unfolding claim_indirect
claim_indirect-direct node k b s = refl

module _ {d : ℕ} {s : FileSystem} (v : IsMounted d s) (node : Inode) (w : IsInode node) where
  -- On a mounted disk with free list b ∷ bs, asking for block k < 10 past the end of a file (number
  -- k + 1, at an offset from the file's size on) succeeds with b. The inode maps k to b, in memory
  -- and on the disk; the free list is bs; no data block and no other inode has changed.
  pub find_next_datablock-direct :
      (k i b : ℕ) (bs : List ℕ) (old_fileoffset current_offset : ℤ)
      → k < 10
      → node.inode_index ≡ pos i
      → InRegion d i
      → leb_ℤ old_fileoffset current_offset ≡ true
      → IsSuperblock s.superblock1
      → FreeBlocks d s.disk_image s.superblock1.free_block (b ∷ bs)
      → (s' : FileSystem) × (find_next_datablock node (pos (suc k)) old_fileoffset current_offset s
          ≡ some ((pos b, with_dblock node k b), s'))
        × Maps d s'.disk_image (inode_of s'.disk_image i) k b
        × (inode_of s'.disk_image i ≡ with_dblock node k b)
        × FreeBlocks d s'.disk_image s'.superblock1.free_block bs
        × ((c : ℕ) → block_of d s'.disk_image c ≡ block_of d s.disk_image c)
        × ((j : ℕ) → i ≢ j → inode_of s'.disk_image j ≡ inode_of s.disk_image j)
  unfolding find_next_datablock
  find_next_datablock-direct k i b bs old cur lt ei hi at_end wsp free =
      let (s1, run, free1, on_disk, same_block, same_inode, v1, same_table) =
        request_new_block-pops v b bs wsp free in
      let node' = with_dblock node k b in
      let image = fwrite s1.disk_image (inode_address i) (inode_bytes node') 116 in
      let stored =
        inode_of-fwrite_self s1.disk_image node' i (IsInode-with_dblock node k b free.1 w) in
      (
        with_image s1 image,
        ground (
          arith,
          run,
          location_of-direct k lt,
          claim_indirect-direct node k (pos b) s1,
          update_dblock-ok v1 node k i b (omega (arith, w.length-dblocks)) ei hi,
        ),
        subst (λ n. Maps d image n k b) (sym stored)
            (direct lt
              (get_elem?-set_self node.dblocks k (pos b) (omega (arith, w.length-dblocks)))),
        stored,
        FreeBlocks-frame d s1.disk_image image bs _
            (λ _ c _. block_of-fwrite_inode d s1.disk_image (inode_bytes node') i c hi) free1,
        (λ c. block_of-fwrite_inode d s1.disk_image (inode_bytes node') i c hi ∙ same_block c),
        (λ j ne. inode_of-fwrite_ne s1.disk_image (inode_bytes node') i j ne ∙ same_inode j),
      )
