-- ===== src/File/Slot.antt =====
-- The slot of the file table that f_open takes (filesystem.c), and f_close of it.
use file_system_project.Prelude.{
  ℕ, ◌≤◌, ◌<◌, ◌≡◌, ◌≢◌, sym, ◌∙◌, true, false, some, arith, get_elem?, set, length, length-set,
  get_elem?-set_self, get_elem?-set_ne, lt-of_get_elem?, Bool-cases, ltb, ltb→lt, not_ltb→le, inl,
  inr,
}
use file_system_project.Prelude.Int.{ℤ, pos}
use file_system_project.Layout.{Inode}
use file_system_project.Store.{FileSystem, FileTableEntry}
use file_system_project.Table.{f_close, update_freehead, find_next_freehead, first_entry, is_free}
use file_system_project.Table.Scan.{IsFirst}
use file_system_project.Table.Close.{f_close_frees}
use file_system_project.File.Open.{take_slot}

abbrev pub opened : Inode → ℤ → FileTableEntry
opened node access = record {
  free_file = false;
  file_inode = node;
  byte_offset = pos 0;
  access = access;
}

module _ (s : FileSystem) (h : ℕ) (node : Inode) (access : ℤ)
    (first : IsFirst is_free s.file_table h) where
  abbrev pub after_take : FileSystem
  after_take =
      let table = set s.file_table h (opened node access) in
      record s { file_table = table; table_freehead = first_entry is_free table }

  pub take_slot-ok : s.table_freehead ≡ pos h → take_slot node access s ≡ some (pos h, after_take)
  unfolding take_slot update_freehead find_next_freehead
  take_slot-ok head = ground (arith, first.at)

  -- No slot before h is free after f_close either, as none was before.
  first_again :
      (s' : FileSystem) (k : ℕ)
      → ((j : ℕ) → h ≢ j → get_elem? s'.file_table j ≡ get_elem? after_take.file_table j)
      → k ≤ h
      → IsFirst is_free s'.file_table k
      → k ≡ h
  first_again s' k same le found = elim (Bool-cases (ltb k h)) [
    | inl before ↦ absurd (clash (ltb→lt k h before))
    | inr not_before ↦ let ge = not_ltb→le k h not_before in omega arith
  ]
    where
      clash : k < h → ⊥
      clash lt =
          let ne : h ≢ k = grind arith in
          let untouched = get_elem?-set_ne s.file_table (opened node access) ne in
          let taken = first.before k found.entry lt (sym untouched ∙ sym (same k ne) ∙ found.at) in
          let free = found.passes in cc

  -- With 20 slots of which slot h, where `table_freehead` points, is the first free one, f_open's
  -- taking of a slot gives h, which is then open on the inode at position 0; `f_close` of h then
  -- succeeds, slot h is free again, and `table_freehead` points to it. No other slot and nothing on
  -- the disk has changed after the two.
  pub take_slot-f_close :
      length s.file_table ≡ 20
      → s.table_freehead ≡ pos h
      → (s1 : FileSystem) × (s2 : FileSystem) × (take_slot node access s ≡ some (pos h, s1))
        × (get_elem? s1.file_table h ≡ some (opened node access))
        × (f_close (pos h) s1 ≡ some (true, s2))
        × (get_elem? s2.file_table h ≡ some (record (opened node access) { free_file = true }))
        × (s2.table_freehead ≡ pos h)
        × ((j : ℕ) → h ≢ j → get_elem? s2.file_table j ≡ get_elem? s.file_table j)
        × (s2.disk_image ≡ s.disk_image)
  take_slot-f_close full head =
      let inside = lt-of_get_elem? s.file_table h first.at in
      let slot = get_elem?-set_self s.file_table h (opened node access) inside in
      let (s2, closed, freed, others, disk, (k, head2, le, found)) =
        f_close_frees after_take h (opened node access)
          (length-set s.file_table h (opened node access) ∙ full) slot in
      let back = first_again s2 k others le found in
      (
        after_take,
        s2,
        take_slot-ok head,
        slot,
        closed,
        freed,
        ground (arith, head2, back),
        (λ j ne. others j ne ∙ get_elem?-set_ne s.file_table (opened node access) ne),
        disk,
      )
