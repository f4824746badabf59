-- ===== src/Directory/Contents.antt =====
-- `f_readdir` (filesystem.c) reads a directory of at most 80 entries, eight to a block, in order.
use file_system_project.Prelude.{
  ℕ, suc, ◌+◌, ◌-◌, ◌*◌, ◌/◌, ◌%◌, ◌<◌, ◌≡◌, none, some, List, arith, get_elem?, set, length,
  set-set, get_elem?-set_self, lt-of_get_elem?,
}
use file_system_project.Prelude.Int.{pos}
use file_system_project.Memory.{Memory, fread}
use file_system_project.Layout.{Inode, DirectoryEntry, entry_at}
use file_system_project.Store.{FileSystem, FileTableEntry}
use file_system_project.Disk.Geometry.{IsMounted, IsBlock, block_of, get_data_block-ok}
use file_system_project.Directory.{f_readdir, read_entry, near_entry, advance, direct_copy}

-- Entry e is the k-th of the directory: in its block k / 8, which is direct, at place k % 8.
pub record EntryAt (d : ℕ) (m : Memory) (node : Inode) (k : ℕ) (e : DirectoryEntry) : Type 0 where
  pub block : ℕ
  pub direct : get_elem? node.dblocks (k / 8) ≡ some (pos block)
  pub small : IsBlock block
  pub here : entry_at (fread (block_of d m block) (64 * (k % 8)) 64) ≡ e

-- The directory holds these entries and no more.
pub record Holds (d : ℕ) (m : Memory) (node : Inode) (es : List DirectoryEntry) : Type 0 where
  pub size_eq : node.size ≡ pos (64 * length es)
  pub entry : (k : ℕ) (e : DirectoryEntry) → get_elem? es k ≡ some e → EntryAt d m node k e

-- The state with the position of slot i at byte o; the slot is otherwise t.
abbrev pub slot_at : FileSystem → ℕ → FileTableEntry → ℕ → FileSystem
slot_at s i t o = record s { file_table = set s.file_table i (record t { byte_offset = pos o }) }

IsMounted-slot_at :
    {d : ℕ} {s : FileSystem} (i : ℕ) (t : FileTableEntry) (o : ℕ)
    → IsMounted d s
    → IsMounted d (slot_at s i t o)
IsMounted-slot_at i t o v = record {
  size = v.size;
  inode_offset = v.inode_offset;
  data_offset = v.data_offset;
  small = v.small;
}

module _ {d : ℕ} {s : FileSystem} (v : IsMounted d s) (i : ℕ) (t t' : FileTableEntry) where
  near_entry-ok :
      (k : ℕ) (e : DirectoryEntry)
      → EntryAt d s.disk_image t.file_inode k e
      → (o : ℕ)
      → near_entry 512 t.file_inode (pos (64 * k)) (slot_at s i t o)
        ≡ some (some e, slot_at s i t o)
  unfolding near_entry direct_copy
  near_entry-ok k e at o =
      let quotient : 64 * k / 512 ≡ k / 8 = omega arith in
      let start : 64 * k - 512 * (64 * k / 512) ≡ 64 * (k % 8) = omega arith in
      ground
        (arith, quotient, start, get_data_block-ok (IsMounted-slot_at i t o v) at.block at.small)

  module _ (es : List DirectoryEntry) (h : Holds d s.disk_image t.file_inode es) (inside : i < 20)
      (there : get_elem? s.file_table i ≡ some t') where
    range : i < length s.file_table
    range = lt-of_get_elem? s.file_table i there

    pub f_readdir-entry :
        (k : ℕ) (e : DirectoryEntry)
        → get_elem? es k ≡ some e
        → f_readdir (pos i) (slot_at s i t (64 * k)) ≡ some (some e, slot_at s i t (64 * suc k))
    unfolding f_readdir read_entry advance
    f_readdir-entry k e at =
        let lt = lt-of_get_elem? es k at in
        let step : 64 * k + 64 ≡ 64 * suc k = omega arith in
        ground (
          arith,
          step,
          near_entry-ok k e (h.entry k e at) (64 * k),
          get_elem?-set_self s.file_table i (record t { byte_offset = pos (64 * k) }) range,
          set-set s.file_table i (record t { byte_offset = pos (64 * k) })
              (record t { byte_offset = pos (64 * suc k) }),
        )

    pub f_readdir-end :
        f_readdir (pos i) (slot_at s i t (64 * length es))
        ≡ some (none, slot_at s i t (64 * length es))
    unfolding f_readdir
    f_readdir-end = ground (
      arith,
      get_elem?-set_self s.file_table i (record t { byte_offset = pos (64 * length es) }) range,
    )
