-- ===== src/File/Release.antt =====
-- `f_remove`'s release of an inode (filesystem.c) against the list of free inodes.
use mathlib.Core.Path.{subst}
use file_system_project.Prelude.{
  ℕ, suc, ◌+◌, ◌*◌, ◌≤◌, ◌≡◌, ◌≢◌, refl, sym, ap, inr, some, List, [], ◌∷◌, arith, get_elem?,
}
use file_system_project.Prelude.Int.{ℤ, pos, IsInt}
use file_system_project.Memory.{Memory, fwrite}
use file_system_project.Memory.Transfer.{fread-fwrite_disjoint}
use file_system_project.Layout.{Inode, inode_bytes, superblock_at}
use file_system_project.Layout.RoundTrip.{IsInode}
use file_system_project.Store.{FileSystem}
use file_system_project.Disk.Geometry.{IsMounted, InRegion, block_of, inode_of, inode_address}
use file_system_project.Disk.Blocks.{
  inode_of-fwrite_self, inode_of-fwrite_ne, block_of-fwrite_inode,
}
use file_system_project.Disk.FreeList.{FreeInodes, superblock_of}
use file_system_project.File.Remove.{free_inode}

FreeInodes-IsInt :
    (d : ℕ) (m : Memory) (h : ℤ) (is : List ℕ) → d ≤ 1000000 → FreeInodes d m h is → IsInt h
FreeInodes-IsInt d m h [] small f = ground arith
FreeInodes-IsInt d m h (i ∷ is) small f = ground arith

-- The list depends on its own inodes alone.
FreeInodes-frame :
    (d : ℕ) (m m' : Memory) (is : List ℕ) (h : ℤ)
    → ((k i : ℕ) → get_elem? is k ≡ some i → inode_of m' i ≡ inode_of m i)
    → FreeInodes d m h is
    → FreeInodes d m' h is
FreeInodes-frame d m m' [] h same f = f
FreeInodes-frame d m m' (i ∷ is) h same (e, inside, rest) = (
  e,
  inside,
  FreeInodes-frame d m m' is (inode_of m' i).next_inode (λ k j at. same (suc k) j at)
      (subst (λ n. FreeInodes d m n.next_inode is) (sym (same 0 i refl)) rest),
)

-- The inode as it is written back: in front of the list.
abbrev pub released : Inode → ℤ → Inode
released node head = record node { next_inode = head }

IsInode-released :
    (node : Inode) (head : ℤ) → IsInt head → IsInode node → IsInode (released node head)
IsInode-released node head h w = record {
  disk_identifier = w.disk_identifier;
  parent_inode_index = w.parent_inode_index;
  next_inode = h;
  size = w.size;
  uid = w.uid;
  gid = w.gid;
  ctime = w.ctime;
  mtime = w.mtime;
  atime = w.atime;
  type = w.type;
  permission = w.permission;
  inode_index = w.inode_index;
  dblocks = w.dblocks;
  iblocks = w.iblocks;
  i2block = w.i2block;
  i3block = w.i3block;
  last_block_index = w.last_block_index;
  length-dblocks = w.length-dblocks;
  length-iblocks = w.length-iblocks;
}

module _ {d : ℕ} {s : FileSystem} (v : IsMounted d s) (node : Inode) (w : IsInode node) where
  -- On a mounted disk whose list of free inodes is is, releasing an inode i that is not on it makes
  -- the list i ∷ is, from the head in the superblock in memory. On the disk inode i gets its link and
  -- keeps all else; no other inode, no data block and not the superblock, with the old head, have
  -- changed.
  pub free_inode-pushes :
      (i : ℕ) (is : List ℕ)
      → node.inode_index ≡ pos i
      → InRegion d i
      → FreeInodes d s.disk_image s.superblock1.free_inode is
      → ((k j : ℕ) → get_elem? is k ≡ some j → i ≢ j)
      → (s' : FileSystem) × (free_inode node s ≡ some (tt, s'))
        × FreeInodes d s'.disk_image s'.superblock1.free_inode (i ∷ is)
        × (inode_of s'.disk_image i ≡ released node s.superblock1.free_inode)
        × ((j : ℕ) → i ≢ j → inode_of s'.disk_image j ≡ inode_of s.disk_image j)
        × ((b : ℕ) → block_of d s'.disk_image b ≡ block_of d s.disk_image b)
        × (superblock_of s'.disk_image ≡ superblock_of s.disk_image)
  unfolding free_inode inode_address
  free_inode-pushes i is ei hi free fresh =
      let head = s.superblock1.free_inode in
      let node' = released node head in
      let m' = fwrite s.disk_image (1024 + i * 116) (inode_bytes node') 116 in
      let stored =
        inode_of-fwrite_self s.disk_image node' i
          (IsInode-released node head (FreeInodes-IsInt d s.disk_image head is v.small free) w) in
      let others =
        λ (j : ℕ) (ne : i ≢ j). inode_of-fwrite_ne s.disk_image (inode_bytes node') i j ne in
      (
        record s { disk_image = m'; superblock1 = record s.superblock1 { free_inode = pos i } },
        ground arith,
        (
          refl,
          hi,
          subst (λ n. FreeInodes d m' n.next_inode is) (sym stored)
              (FreeInodes-frame d s.disk_image m' is head (λ k j at. others j (fresh k j at)) free),
        ),
        stored,
        others,
        (λ b. block_of-fwrite_inode d s.disk_image (inode_bytes node') i b hi),
        ap superblock_at (
            fread-fwrite_disjoint s.disk_image (inode_bytes node') (1024 + i * 116) 116 512 24
              (inr (omega arith))),
      )
