-- ===== src/Disk/FreeList.antt =====
-- The list of free data blocks: `free_block` in the superblock, then `next_free_block`, the first
-- word of each free block. `request_new_block` (filesystem.c) takes its head.
use mathlib.Core.Path.{subst}
use file_system_project.Prelude.{
  ℕ, suc, get_elem?, ◌+◌, ◌*◌, inr, ◌≡◌, ◌∙◌, refl, sym, ap, some, List, [], ◌∷◌, arith,
}
use file_system_project.Prelude.Int.{ℤ, pos, minus_one, IsInt}
use file_system_project.Memory.{Memory, int_at, fread, fwrite}
use file_system_project.Memory.Transfer.{fread-fwrite_self, fread-fwrite_disjoint}
use file_system_project.Layout.{Superblock, superblock_at, superblock_bytes}
use file_system_project.Layout.RoundTrip.{
  IsSuperblock, superblock_at-superblock_bytes, fread-superblock_bytes,
}
use file_system_project.Store.{FileSystem}
use file_system_project.Disk.{update_superblock_ondisk, request_new_block, padding}
use file_system_project.Disk.Geometry.{
  IsMounted, IsBlock, InRegion, block_of, inode_of, inode_address, with_image, get_data_block-ok,
}
use file_system_project.Disk.Blocks.{block_of-fwrite_superblock, inode_of-fwrite_superblock}

-- From head h the free list runs through the blocks bs, in order, and ends.
abbrev pub FreeBlocks : ℕ → Memory → ℤ → List ℕ → Type 0
FreeBlocks d m h [] = h ≡ minus_one
FreeBlocks d m h (b ∷ bs) = (h ≡ pos b) × IsBlock b × FreeBlocks d m (int_at (block_of d m b) 0) bs

-- The list of free inodes, which `next_inode` links.
abbrev pub FreeInodes : ℕ → Memory → ℤ → List ℕ → Type 0
FreeInodes d m h [] = h ≡ minus_one
FreeInodes d m h (i ∷ is) = (h ≡ pos i) × InRegion d i × FreeInodes d m (inode_of m i).next_inode is

pub FreeBlocks-IsInt : (d : ℕ) (m : Memory) (h : ℤ) (bs : List ℕ) → FreeBlocks d m h bs → IsInt h
FreeBlocks-IsInt d m h [] f = ground arith
FreeBlocks-IsInt d m h (b ∷ bs) f = ground arith

-- The list depends on its own blocks alone.
pub FreeBlocks-frame :
    (d : ℕ) (m m' : Memory) (bs : List ℕ) (h : ℤ)
    → ((k b : ℕ) → get_elem? bs k ≡ some b → block_of d m' b ≡ block_of d m b)
    → FreeBlocks d m h bs
    → FreeBlocks d m' h bs
FreeBlocks-frame d m m' [] h same f = f
FreeBlocks-frame d m m' (b ∷ bs) h same (e, small, rest) = (
  e,
  small,
  FreeBlocks-frame d m m' bs (int_at (block_of d m' b) 0) (λ k c at. same (suc k) c at)
      (subst (λ c. FreeBlocks d m (int_at c 0) bs) (sym (same 0 b refl)) rest),
)

-- The image after `update_superblock_ondisk`.
pub with_superblock : Memory → Superblock → Memory → Memory
with_superblock m sp behind =
    fwrite (fwrite m 512 (superblock_bytes sp) 24) 536 (padding behind) 488

pub update_superblock_ondisk-ok :
    (sp : Superblock) (s : FileSystem)
    → update_superblock_ondisk sp s
      ≡ some (pos 512, with_image s (with_superblock s.disk_image sp s.overread))
unfolding update_superblock_ondisk with_superblock
update_superblock_ondisk-ok sp s = refl

pub block_of-with_superblock :
    (d : ℕ) (m behind : Memory) (sp : Superblock) (b : ℕ)
    → block_of d (with_superblock m sp behind) b ≡ block_of d m b
unfolding with_superblock
block_of-with_superblock d m behind sp b =
    block_of-fwrite_superblock d (fwrite m 512 (superblock_bytes sp) 24) (padding behind) 536 b 488
      (omega arith)
    ∙ block_of-fwrite_superblock d m (superblock_bytes sp) 512 b 24 (omega arith)

pub inode_of-with_superblock :
    (m behind : Memory) (sp : Superblock) (i : ℕ)
    → inode_of (with_superblock m sp behind) i ≡ inode_of m i
unfolding with_superblock
inode_of-with_superblock m behind sp i =
    inode_of-fwrite_superblock (fwrite m 512 (superblock_bytes sp) 24) (padding behind) 536 i 488
      (omega arith)
    ∙ inode_of-fwrite_superblock m (superblock_bytes sp) 512 i 24 (omega arith)

-- What `f_mount` would read back.
abbrev pub superblock_of : Memory → Superblock
superblock_of m = superblock_at (fread m 512 24)

pub superblock_of-with_superblock :
    (m behind : Memory) (sp : Superblock)
    → IsSuperblock sp
    → superblock_of (with_superblock m sp behind) ≡ sp
unfolding with_superblock
superblock_of-with_superblock m behind sp v =
    ap superblock_at (
      fread-fwrite_disjoint (fwrite m 512 (superblock_bytes sp) 24) (padding behind) 536 488 512 24
        (omega arith)
      ∙ fread-fwrite_self m (superblock_bytes sp) 512 24
      ∙ fread-superblock_bytes sp)
    ∙ superblock_at-superblock_bytes sp v

pub superblock_of-fwrite_inode :
    (m content : Memory) (i : ℕ)
    → superblock_of (fwrite m (inode_address i) content 116) ≡ superblock_of m
unfolding inode_address
superblock_of-fwrite_inode m content i =
    ap superblock_at
      (fread-fwrite_disjoint m content (1024 + i * 116) 116 512 24 (inr (omega arith)))

-- The superblock in memory and the state after a request that found `next` behind the head.
abbrev pub after_request : FileSystem → ℤ → FileSystem
after_request s next =
    let sp = record s.superblock1 { free_block = next } in
    record s { superblock1 = sp; disk_image = with_superblock s.disk_image sp s.overread }

module _ {d : ℕ} {s : FileSystem} (v : IsMounted d s) where
  -- On a mounted disk with free list b ∷ bs, `request_new_block` returns b. After it the free list
  -- is bs, the superblock on the disk is the one in memory, and no block, no inode, no slot of the
  -- file table and nothing of the disk's geometry has changed.
  pub request_new_block-pops :
      (b : ℕ) (bs : List ℕ)
      → IsSuperblock s.superblock1
      → FreeBlocks d s.disk_image s.superblock1.free_block (b ∷ bs)
      → (s' : FileSystem) × (request_new_block s ≡ some (pos b, s'))
        × FreeBlocks d s'.disk_image s'.superblock1.free_block bs
        × (superblock_of s'.disk_image ≡ s'.superblock1)
        × ((c : ℕ) → block_of d s'.disk_image c ≡ block_of d s.disk_image c)
        × ((i : ℕ) → inode_of s'.disk_image i ≡ inode_of s.disk_image i)
        × IsMounted d s'
        × (s'.file_table ≡ s.file_table)
  unfolding request_new_block
  request_new_block-pops b bs w (head, small, rest) =
      let next = int_at (block_of d s.disk_image b) 0 in
      let sp = record s.superblock1 { free_block = next } in
      (
        after_request s next,
        ground (
          arith,
          get_data_block-ok v b small,
          update_superblock_ondisk-ok sp (record s { superblock1 = sp }),
        ),
        FreeBlocks-frame d s.disk_image _ bs next
            (λ k c at. block_of-with_superblock d s.disk_image s.overread sp c) rest,
        superblock_of-with_superblock s.disk_image s.overread sp (record {
          size = w.size;
          inode_offset = w.inode_offset;
          data_offset = w.data_offset;
          free_inode = w.free_inode;
          free_block = FreeBlocks-IsInt d s.disk_image next bs rest;
          root_dir = w.root_dir;
        }),
        (λ c. block_of-with_superblock d s.disk_image s.overread sp c),
        (λ i. inode_of-with_superblock s.disk_image s.overread sp i),
        record {
          size = v.size;
          inode_offset = v.inode_offset;
          data_offset = v.data_offset;
          small = v.small;
        },
        refl,
      )
