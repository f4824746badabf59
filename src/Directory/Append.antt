-- ===== src/Directory/Append.antt =====
-- The entry that f_mkdir and f_open put behind the others in a directory's last block (filesystem.c).
use mathlib.Core.Path.{subst}
use file_system_project.Prelude.{
  ℕ, ◌+◌, ◌*◌, ◌/◌, ◌%◌, ◌≤◌, ◌<◌, ◌≡◌, ◌≢◌, sym, ◌∙◌, ap, some, List, [], ◌∷◌, ◌++◌, arith,
  get_elem?, set, length, length-append, inl, inr, get_elem?-snoc, lt-of_get_elem?,
  get_elem?-set_self, ltb, Bool-cases, ltb→lt, not_ltb→le,
}
use file_system_project.Prelude.Int.{pos}
use file_system_project.Memory.{Memory, fread, fwrite}
use file_system_project.Layout.{Inode, DirectoryEntry, entry_at, inode_bytes}
use file_system_project.Layout.RoundTrip.{IsInode, IsEntry}
use file_system_project.Store.{FileSystem, FileTableEntry}
use file_system_project.Disk.Geometry.{
  IsMounted, IsBlock, InRegion, block_of, inode_of, block_address, inode_address,
  write_data_to_block-ok, update_single_inode_ondisk-ok,
}
use file_system_project.Disk.Blocks.{
  block_of-fwrite_self, block_of-fwrite_ne, block_of-fwrite_inode, inode_of-fwrite_self,
  inode_of-fwrite_block, inode_of-fwrite_ne,
}
use file_system_project.Directory.Contents.{Holds, EntryAt}
use file_system_project.Directory.Bytes.{with_entry, fread-with_entry_self, fread-with_entry_below}
use file_system_project.Directory.Make.{append_entry_last_block}

-- The inode with room for one more entry counted in.
abbrev pub grown : Inode → ℕ → Inode
grown node n = record node { size = pos (64 * n + 64) }

module _ {d : ℕ} {s : FileSystem} (v : IsMounted d s) (fd i b : ℕ) (t t' : FileTableEntry)
    (es : List DirectoryEntry) (newf : DirectoryEntry) where
  abbrev n : ℕ
  n = length es

  abbrev node : Inode
  node = t.file_inode

  abbrev content : Memory
  content = with_entry (block_of d s.disk_image b) (n % 8) newf

  abbrev image1 : Memory
  image1 = fwrite s.disk_image (block_address d b) content 512

  abbrev image2 : Memory
  image2 = fwrite image1 (inode_address i) (inode_bytes (grown node n)) 116

  block_of-image2_self :
      InRegion d i → block_of d image2 b ≡ fwrite (block_of d s.disk_image b) 0 content 512
  block_of-image2_self hi =
      block_of-fwrite_inode d image1 (inode_bytes (grown node n)) i b hi
      ∙ block_of-fwrite_self d s.disk_image content b 512 (omega arith)

  block_of-image2_ne :
      (c : ℕ) → InRegion d i → b ≢ c → block_of d image2 c ≡ block_of d s.disk_image c
  block_of-image2_ne c hi ne =
      block_of-fwrite_inode d image1 (inode_bytes (grown node n)) i c hi
      ∙ block_of-fwrite_ne d s.disk_image content b c 512 (omega arith) ne

  abbrev after_append : FileSystem
  after_append = record s {
    disk_image = image2;
    file_table = set s.file_table fd (record t { file_inode = grown node n });
  }

  abbrev before_inode : FileSystem
  before_inode = record s {
    disk_image = image1;
    file_table = set s.file_table fd (record t { file_inode = grown node n });
  }

  before_inode-IsMounted : IsMounted d before_inode
  before_inode-IsMounted = record {
    size = v.size;
    inode_offset = v.inode_offset;
    data_offset = v.data_offset;
    small = v.small;
  }

  append_entry_last_block-ok :
      node.size ≡ pos (64 * n)
      → node.last_block_index ≡ pos b
      → IsBlock b
      → node.inode_index ≡ pos i
      → InRegion d i
      → get_elem? s.file_table fd ≡ some t'
      → append_entry_last_block (pos fd) t newf (block_of d s.disk_image b) s
        ≡ some (grown node n, after_append)
  unfolding append_entry_last_block
  append_entry_last_block-ok es_size last hb ei hi at =
      let place : 64 * n % 512 ≡ 64 * (n % 8) = omega arith in
      ground (
        arith,
        place,
        write_data_to_block-ok v b content 512 hb (omega arith),
        update_single_inode_ondisk-ok before_inode-IsMounted (grown node n) i hi,
      )

  module _ (hi : InRegion d i) (hb : IsBlock b)
      (direct : get_elem? node.dblocks (n / 8) ≡ some (pos b)) where
    EntryAt-new : IsEntry newf → EntryAt d image2 (grown node n) n newf
    EntryAt-new w = record {
      block = b;
      direct = direct;
      small = hb;
      here =
          ap (λ m. entry_at (fread m (64 * (n % 8)) 64)) (block_of-image2_self hi)
          ∙ fread-with_entry_self (block_of d s.disk_image b) (block_of d s.disk_image b) (n % 8)
              newf (omega arith) w;
    }

    -- An entry of the block that the new one goes to.
    EntryAt-same_block :
        (k : ℕ) (e : DirectoryEntry)
        → k < n
        → k / 8 ≡ n / 8
        → EntryAt d s.disk_image node k e
        → EntryAt d image2 (grown node n) k e
    EntryAt-same_block k e lt same at =
        let block_eq : at.block ≡ b = ground (arith, at.direct) in
        record {
          block = b;
          direct = rw same direct;
          small = hb;
          here =
              ap (λ m. entry_at (fread m (64 * (k % 8)) 64)) (block_of-image2_self hi)
              ∙ ap entry_at (
                  fread-with_entry_below (block_of d s.disk_image b) (block_of d s.disk_image b)
                    (n % 8) (k % 8) newf (omega arith) (omega arith))
              ∙ ap (λ c. entry_at (fread (block_of d s.disk_image c) (64 * (k % 8)) 64))
                  (sym block_eq)
              ∙ at.here;
        }

    EntryAt-other_block :
        (k : ℕ) (e : DirectoryEntry)
        → (at : EntryAt d s.disk_image node k e) → b ≢ at.block
        → EntryAt d image2 (grown node n) k e
    EntryAt-other_block k e at ne = record {
      block = at.block;
      direct = at.direct;
      small = at.small;
      here =
          ap (λ m. entry_at (fread m (64 * (k % 8)) 64)) (block_of-image2_ne at.block hi ne)
          ∙ at.here;
    }

    Holds-append :
        Holds d s.disk_image node es
        → IsEntry newf
        → ((k c : ℕ) → k < n / 8 → get_elem? node.dblocks k ≡ some (pos c) → b ≢ c)
        → Holds d image2 (grown node n) (es ++ newf ∷ [])
    Holds-append h w apart = record {
      size_eq = ground (arith, length-append es (newf ∷ []));
      entry = λ k e at. elim (get_elem?-snoc es newf e k at) [
        | inl before ↦ old k e before
        | inr (last, same) ↦ moved k e last same (EntryAt-new w)
      ];
    }
      where
        same_quotient : (k : ℕ) → k < n → n / 8 ≤ k / 8 → k / 8 ≡ n / 8
        same_quotient k lt le = omega arith

        old :
            (k : ℕ) (e : DirectoryEntry)
            → get_elem? es k ≡ some e
            → EntryAt d image2 (grown node n) k e
        old k e at =
            let lt = lt-of_get_elem? es k at in
            let here = h.entry k e at in
            elim (Bool-cases (ltb (k / 8) (n / 8))) [
              | inr same ↦
                  EntryAt-same_block k e lt (same_quotient k lt (not_ltb→le (k / 8) (n / 8) same))
                    here
              | inl below ↦
                  EntryAt-other_block k e here
                    (apart (k / 8) here.block (ltb→lt (k / 8) (n / 8) below) here.direct)
            ]

        moved :
            (k : ℕ) (e : DirectoryEntry)
            → k ≡ n
            → newf ≡ e
            → EntryAt d image2 (grown node n) n newf
            → EntryAt d image2 (grown node n) k e
        moved k e p q r =
            subst (λ x. EntryAt d image2 (grown node n) x e) (sym p)
              (subst (λ x. EntryAt d image2 (grown node n) n x) q r)

    -- On a mounted disk, putting a new entry behind the n entries of the directory in slot fd, in its
    -- direct block n / 8, makes the directory hold them and the new one, on the disk and in the
    -- slot; no other block of data and no other inode has changed. The inode must be well formed and
    -- lie in the inode region, and the directory's earlier blocks must be other blocks.
    pub append_entry_last_block-Holds :
        Holds d s.disk_image node es
        → IsInode (grown node n)
        → IsEntry newf
        → node.last_block_index ≡ pos b
        → node.inode_index ≡ pos i
        → get_elem? s.file_table fd ≡ some t'
        → ((k c : ℕ) → k < n / 8 → get_elem? node.dblocks k ≡ some (pos c) → b ≢ c)
        → (s' : FileSystem) × (append_entry_last_block (pos fd) t newf (block_of d s.disk_image b) s
            ≡ some (grown node n, s'))
          × Holds d s'.disk_image (grown node n) (es ++ newf ∷ [])
          × (inode_of s'.disk_image i ≡ grown node n)
          × (get_elem? s'.file_table fd ≡ some (record t { file_inode = grown node n }))
          × ((c : ℕ) → b ≢ c → block_of d s'.disk_image c ≡ block_of d s.disk_image c)
          × ((j : ℕ) → InRegion d j → i ≢ j → inode_of s'.disk_image j ≡ inode_of s.disk_image j)
    append_entry_last_block-Holds h wi we last ei at apart = (
      after_append,
      append_entry_last_block-ok h.size_eq last hb ei hi at,
      Holds-append h we apart,
      inode_of-fwrite_self image1 (grown node n) i wi,
      get_elem?-set_self s.file_table fd (record t { file_inode = grown node n })
          (lt-of_get_elem? s.file_table fd at),
      (λ c ne. block_of-image2_ne c hi ne),
      (λ j inside ne.
          inode_of-fwrite_ne image1 (inode_bytes (grown node n)) i j ne
          ∙ inode_of-fwrite_block d s.disk_image content b j 512 inside),
    )
