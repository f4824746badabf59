-- ===== src/Directory/Lookup.antt =====
-- The search of a directory for a name (the inner loop of `f_opendir`, filesystem.c) is a search of
-- the list of its entries.
use file_system_project.Prelude.{
  ℕ, zero, suc, ◌+◌, ◌*◌, ◌/◌, ◌<◌, ◌≡◌, refl, Bool, Option, none, some, List, [], ◌∷◌, arith,
  if◌then◌else◌, get_elem?, length, set-set, get_elem?-set_self, lt-of_get_elem?,
}
use file_system_project.Prelude.Int.{pos}
use file_system_project.Layout.{DirectoryEntry}
use file_system_project.Store.{FileSystem, FileTableEntry}
use file_system_project.Disk.Geometry.{IsMounted}
use file_system_project.Directory.Contents.{Holds, slot_at, f_readdir-entry, f_readdir-end}
use file_system_project.Directory.Open.{find_entry, scan, rewind_slot, entries_fuel}
use file_system_project.Text.{Text, c_string, text_eq}

abbrev pub named : Text → DirectoryEntry → Bool
named token e = text_eq (c_string e.filename) token

-- The first entry with the name.
unfoldable pub find_named : Text → List DirectoryEntry → Option DirectoryEntry
find_named token [] = none
find_named token (e ∷ es) = if named token e then some e else find_named token es

-- Where the search leaves the slot's position: at the start if it found the name, else at the end.
abbrev pub position_after : Option DirectoryEntry → ℕ → ℕ
position_after none n = 64 * n
position_after (some e) n = 0

module _ {d : ℕ} {s : FileSystem} (v : IsMounted d s) (i : ℕ) (t : FileTableEntry)
    (token : Text) where
  module _ (es : List DirectoryEntry) (h : Holds d s.disk_image t.file_inode es) (inside : i < 20)
      (there : get_elem? s.file_table i ≡ some t) where
    rewind_slot-ok : (o : ℕ) → rewind_slot (pos i) (slot_at s i t o) ≡ some (tt, slot_at s i t 0)
    unfolding rewind_slot
    rewind_slot-ok o = ground (
      arith,
      get_elem?-set_self s.file_table i (record t { byte_offset = pos o })
          (lt-of_get_elem? s.file_table i there),
      set-set s.file_table i (record t { byte_offset = pos o }) (record t { byte_offset = pos 0 }),
    )

    -- From entry k on, with the entries that are left.
    find_entry-named :
        (fuel k : ℕ) (rest : List DirectoryEntry)
        → length rest < fuel
        → k + length rest ≡ length es
        → ((j : ℕ) (e : DirectoryEntry) → get_elem? rest j ≡ some e → get_elem? es (k + j) ≡ some e)
        → find_entry fuel (pos i) token (slot_at s i t (64 * k))
          ≡ some (
            find_named token rest,
            slot_at s i t (position_after (find_named token rest) (length es)),
          )
    unfolding find_entry find_named
    find_entry-named zero k rest enough e part = absurd (omega arith)
    find_entry-named (suc fuel) k [] enough e part =
        let last : k ≡ length es = omega arith in
        rw last (ground (arith, f_readdir-end v i t t es h inside there))
    find_entry-named (suc fuel) k (x ∷ rest) enough e part = ground (
      arith,
      f_readdir-entry v i t t es h inside there k x head,
      rewind_slot-ok (64 * suc k),
      find_entry-named fuel (suc k) rest (omega arith) (omega arith) tail,
    )
      where
        head : get_elem? es k ≡ some x
        head = let first : k + 0 ≡ k = omega arith in rw first at (part 0 x refl)

        tail :
            (j : ℕ) (y : DirectoryEntry)
            → get_elem? rest j ≡ some y
            → get_elem? es (suc k + j) ≡ some y
        tail j y p = let next : k + suc j ≡ suc k + j = omega arith in rw next at (part (suc j) y p)

    -- On a mounted disk, searching the directory in slot i < 20 for a name terminates with the first
    -- of its entries that has the name, or with none; the slot's position is then 0, or the end of
    -- the directory, and nothing else has changed.
    pub scan-find_named :
        scan (pos i) token s
        ≡ some
            (find_named token es, slot_at s i t (position_after (find_named token es) (length es)))
    unfolding scan rewind_slot entries_fuel
    scan-find_named = ground (
      arith,
      get_elem?-set_self s.file_table i (record t { byte_offset = pos 0 })
          (lt-of_get_elem? s.file_table i there),
      find_entry-named (64 * length es / 64 + 2) 0 es (omega arith) (omega arith) from_start,
    )
      where
        from_start :
            (j : ℕ) (e : DirectoryEntry) → get_elem? es j ≡ some e → get_elem? es (0 + j) ≡ some e
        from_start j e p = let same : 0 + j ≡ j = omega arith in rw same p
