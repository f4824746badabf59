-- ===== src/Directory/Start.antt =====
-- The inode and the first block of a directory that f_mkdir makes (filesystem.c).
use mathlib.Core.Path.{subst}
use mathlib.Core.Option.{some-injective}
use file_system_project.Prelude.{
  ℕ, zero, suc, ◌<◌, ◌≡◌, ◌≢◌, refl, ◌∙◌, ap, Bool, true, false, some, List, [], ◌∷◌, arith,
  get_elem?, length, get_elem?-some, get_elem?-set_self, if◌then◌else◌,
}
use file_system_project.Prelude.Int.{ℤ, pos, IsInt}
use file_system_project.Memory.{Memory, fread, fwrite, int_at}
use file_system_project.Layout.{Superblock, Inode, DirectoryEntry, inode_bytes, entry_at}
use file_system_project.Layout.RoundTrip.{IsInode, IsEntry, IsSuperblock}
use file_system_project.Store.{FileSystem}
use file_system_project.Disk.Geometry.{
  IsMounted, IsBlock, InRegion, block_of, inode_of, block_address, inode_address, get_data_block-ok,
  write_data_to_block-ok, update_single_inode_ondisk-ok,
}
use file_system_project.Disk.Blocks.{
  block_of-fwrite_self, block_of-fwrite_ne, block_of-fwrite_inode, inode_of-fwrite_self,
  inode_of-fwrite_block, inode_of-fwrite_ne,
}
use file_system_project.Disk.FreeList.{
  FreeBlocks, FreeBlocks-frame, FreeBlocks-IsInt, with_superblock, update_superblock_ondisk-ok,
  block_of-with_superblock, inode_of-with_superblock, superblock_of, superblock_of-fwrite_inode,
  superblock_of-with_superblock,
}
use file_system_project.Directory.NewInode.{directory_inode, IsInode-directory_inode}
use file_system_project.Directory.Bytes.{
  with_entry, entry_at-with_entry, fread-with_entry_self, fread-with_entry_below,
}
use file_system_project.Directory.Contents.{Holds, EntryAt}
use file_system_project.Directory.Make.{start_directory}

module _ {d : ℕ} {s : FileSystem} (v : IsMounted d s) (set_last : Bool) (new_inode : Inode)
    (i b : ℕ) (parent_index : ℤ) (current_d parent : DirectoryEntry) where
  abbrev node : Inode
  node = directory_inode set_last new_inode parent_index b

  abbrev old_block : Memory
  old_block = block_of d s.disk_image b

  abbrev entries : Memory
  entries = with_entry (with_entry old_block 0 current_d) 1 parent

  abbrev sp1 : Superblock
  sp1 = record s.superblock1 { free_block = int_at old_block 0 }

  abbrev sp2 : Superblock
  sp2 = if set_last then record sp1 { free_inode = new_inode.next_inode } else sp1

  abbrev image1 : Memory
  image1 = fwrite s.disk_image (block_address d b) entries 512

  abbrev image2 : Memory
  image2 = with_superblock image1 sp2 s.overread

  abbrev image3 : Memory
  image3 = fwrite image2 (inode_address i) (inode_bytes node) 116

  abbrev after_start : FileSystem
  after_start = record s { disk_image = image3; superblock1 = sp2 }

  IsMounted-sp1 : IsMounted d (record s { superblock1 = sp1 })
  IsMounted-sp1 = record {
    size = v.size;
    inode_offset = v.inode_offset;
    data_offset = v.data_offset;
    small = v.small;
  }

  -- What holds of the superblock with either list of free inodes.
  kept :
      (l : Bool) (P : Superblock → Type 0)
      → P (record sp1 { free_inode = new_inode.next_inode })
      → P sp1
      → P (if l then record sp1 { free_inode = new_inode.next_inode } else sp1)
  kept true P p q = p
  kept false P p q = q

  IsMounted-before_inode : IsMounted d (record s { superblock1 = sp2; disk_image = image2 })
  IsMounted-before_inode = record {
    size = kept set_last (λ sp. sp.size ≡ pos 512) v.size v.size;
    inode_offset = kept set_last (λ sp. sp.inode_offset ≡ pos 0) v.inode_offset v.inode_offset;
    data_offset = kept set_last (λ sp. sp.data_offset ≡ pos d) v.data_offset v.data_offset;
    small = v.small;
  }

  start_directory-ok :
      s.superblock1.free_block ≡ pos b
      → IsBlock b
      → InRegion d i
      → 0 < length new_inode.dblocks
      → start_directory set_last new_inode (pos i) parent_index current_d parent s
        ≡ some (tt, after_start)
  unfolding start_directory
  start_directory-ok head hb hi lt =
      let (old, at) = get_elem?-some new_inode.dblocks 0 lt in
      let written = record s { superblock1 = sp2; disk_image = image1 } in
      ground (
        arith,
        at,
        get_data_block-ok v b hb,
        write_data_to_block-ok IsMounted-sp1 b entries 512 hb (omega arith),
        update_superblock_ondisk-ok sp2 written,
        update_single_inode_ondisk-ok IsMounted-before_inode node i hi,
      )

  block_of-image3_self : InRegion d i → block_of d image3 b ≡ fwrite old_block 0 entries 512
  block_of-image3_self hi =
      block_of-fwrite_inode d image2 (inode_bytes node) i b hi
      ∙ block_of-with_superblock d image1 s.overread sp2 b
      ∙ block_of-fwrite_self d s.disk_image entries b 512 (omega arith)

  block_of-image3_ne :
      (c : ℕ) → InRegion d i → b ≢ c → block_of d image3 c ≡ block_of d s.disk_image c
  block_of-image3_ne c hi ne =
      block_of-fwrite_inode d image2 (inode_bytes node) i c hi
      ∙ block_of-with_superblock d image1 s.overread sp2 c
      ∙ block_of-fwrite_ne d s.disk_image entries b c 512 (omega arith) ne

  inode_of-image3_ne : (j : ℕ) → InRegion d j → i ≢ j → inode_of image3 j ≡ inode_of s.disk_image j
  inode_of-image3_ne j inside ne =
      inode_of-fwrite_ne image2 (inode_bytes node) i j ne
      ∙ inode_of-with_superblock image1 s.overread sp2 j
      ∙ inode_of-fwrite_block d s.disk_image entries b j 512 inside

  Holds-start :
      IsBlock b
      → InRegion d i
      → 0 < length new_inode.dblocks
      → IsEntry current_d
      → IsEntry parent
      → Holds d image3 node (current_d ∷ parent ∷ [])
  Holds-start hb hi lt wc wp = record { size_eq = refl; entry = entry_at_index }
    where
      first : get_elem? node.dblocks 0 ≡ some (pos b)
      first = get_elem?-set_self new_inode.dblocks 0 (pos b) lt

      EntryAt-current : EntryAt d image3 node 0 current_d
      EntryAt-current = record {
        block = b;
        direct = first;
        small = hb;
        here =
            ap (λ m. entry_at (fread m 0 64)) (block_of-image3_self hi)
            ∙ ap entry_at (
                fread-with_entry_below old_block (with_entry old_block 0 current_d) 1 0 parent
                  (omega arith) (omega arith))
            ∙ entry_at-with_entry old_block 0 current_d wc;
      }

      EntryAt-parent : EntryAt d image3 node 1 parent
      EntryAt-parent = record {
        block = b;
        direct = first;
        small = hb;
        here =
            ap (λ m. entry_at (fread m 64 64)) (block_of-image3_self hi)
            ∙ fread-with_entry_self old_block (with_entry old_block 0 current_d) 1 parent
                (omega arith) wp;
      }

      entry_at_index :
          (k : ℕ) (e : DirectoryEntry)
          → get_elem? (current_d ∷ parent ∷ []) k ≡ some e
          → EntryAt d image3 node k e
      entry_at_index zero e at =
          subst (EntryAt d image3 node 0) (some-injective current_d e at) EntryAt-current
      entry_at_index (suc zero) e at =
          subst (EntryAt d image3 node 1) (some-injective parent e at) EntryAt-parent
      entry_at_index (suc (suc k)) e at = absurd cc

  module _ (bs : List ℕ) (w : IsSuperblock s.superblock1)
      (free : FreeBlocks d s.disk_image s.superblock1.free_block (b ∷ bs))
      (wi : IsInode new_inode) where
    IsSuperblock-sp2 : IsSuperblock sp2
    IsSuperblock-sp2 = record {
      size = kept set_last (λ sp. IsInt sp.size) w.size w.size;
      inode_offset = kept set_last (λ sp. IsInt sp.inode_offset) w.inode_offset w.inode_offset;
      data_offset = kept set_last (λ sp. IsInt sp.data_offset) w.data_offset w.data_offset;
      free_inode = kept set_last (λ sp. IsInt sp.free_inode) wi.next_inode w.free_inode;
      free_block = kept set_last (λ sp. IsInt sp.free_block) next next;
      root_dir = kept set_last (λ sp. IsInt sp.root_dir) w.root_dir w.root_dir;
    }
      where
        next : IsInt (int_at old_block 0)
        next = FreeBlocks-IsInt d s.disk_image (int_at old_block 0) bs free.2

    superblock_of-image3 : superblock_of image3 ≡ sp2
    superblock_of-image3 =
        superblock_of-fwrite_inode image2 (inode_bytes node) i
        ∙ superblock_of-with_superblock image1 s.overread sp2 IsSuperblock-sp2

    rest :
        InRegion d i
        → ((k c : ℕ) → get_elem? bs k ≡ some c → b ≢ c)
        → FreeBlocks d image3 (int_at old_block 0) bs
    rest hi fresh =
        FreeBlocks-frame d s.disk_image image3 bs (int_at old_block 0)
          (λ k c at. block_of-image3_ne c hi (fresh k c at)) free.2

    -- On a mounted disk with free list b ∷ bs, `start_directory` makes inode i a directory that holds
    -- the two entries it is given, in block b. After it the free list is bs, the superblock on the
    -- disk is the one in memory, and no other block and no other inode has changed. The inode is a
    -- well-formed one in the inode region, and b is not on the rest of the list.
    pub start_directory-Holds :
        InRegion d i
        → IsInt parent_index
        → IsEntry current_d
        → IsEntry parent
        → ((k c : ℕ) → get_elem? bs k ≡ some c → b ≢ c)
        → (s' : FileSystem) × (start_directory set_last new_inode
              (pos i)
              parent_index
              current_d
              parent
              s
            ≡ some (tt, s'))
          × (inode_of s'.disk_image i ≡ node)
          × Holds d s'.disk_image node (current_d ∷ parent ∷ [])
          × FreeBlocks d s'.disk_image s'.superblock1.free_block bs
          × (superblock_of s'.disk_image ≡ s'.superblock1)
          × ((c : ℕ) → b ≢ c → block_of d s'.disk_image c ≡ block_of d s.disk_image c)
          × ((j : ℕ) → InRegion d j → i ≢ j → inode_of s'.disk_image j ≡ inode_of s.disk_image j)
    start_directory-Holds hi hp wc wp fresh =
        let some_block : 0 < length new_inode.dblocks = omega (arith, wi.length-dblocks) in
        (
          after_start,
          start_directory-ok free.0 free.1 hi some_block,
          inode_of-fwrite_self image2 node i
              (IsInode-directory_inode set_last new_inode parent_index b free.1 hp wi),
          Holds-start free.1 hi some_block wc wp,
          kept set_last (λ sp. FreeBlocks d image3 sp.free_block bs) (rest hi fresh)
              (rest hi fresh),
          superblock_of-image3,
          (λ c ne. block_of-image3_ne c hi ne),
          (λ j inside ne. inode_of-image3_ne j inside ne),
        )
