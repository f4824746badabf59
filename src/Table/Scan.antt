-- ===== src/Table/Scan.antt =====
-- The scans of the file table find the first entry that passes their test (filesystem.c:
-- find_next_freehead, already_in_table, get_fd_from_inode_value).
use file_system_project.Prelude.{
  ℕ, zero, suc, ◌+◌, ◌≤◌, ◌<◌, ◌≡◌, refl, ◌⊎◌, inl, inr, Bool, true, false, some, List, [], ◌∷◌,
  arith, get_elem?, ltb, ltb→lt, not_ltb→le, Bool-cases,
}
use file_system_project.Prelude.Int.{pos, minus_one}
use file_system_project.Store.{FileTableEntry}
use file_system_project.Table.{first_entry, first_entry_from}

-- Entry k passes, and no entry before it does.
pub record IsFirst (test : FileTableEntry → Bool) (es : List FileTableEntry) (k : ℕ) : Type 0 where
  pub entry : FileTableEntry
  pub at : get_elem? es k ≡ some entry
  pub passes : test entry ≡ true
  pub before : (j : ℕ) (e : FileTableEntry) → j < k → get_elem? es j ≡ some e → test e ≡ false

abbrev pub NonePasses : (FileTableEntry → Bool) → List FileTableEntry → Type 0
NonePasses test es = (j : ℕ) (e : FileTableEntry) → get_elem? es j ≡ some e → test e ≡ false

module _ (test : FileTableEntry → Bool) where
  first_entry_from-cases :
      (i : ℕ) (es : List FileTableEntry)
      → ((first_entry_from test i es ≡ minus_one) × NonePasses test es)
        ⊎ ((k : ℕ) × (first_entry_from test i es ≡ pos (i + k)) × IsFirst test es k)
  unfolding first_entry_from
  first_entry_from-cases i [] = inl (refl, λ j e h. cc)
  first_entry_from-cases i (e ∷ es) = elim (Bool-cases (test e)) [
    | inl p ↦ inr (
      0,
      ground arith,
      record { entry = e; at = refl; passes = p; before = λ j e' lt. absurd (omega arith) },
    )
    | inr np ↦ elim (first_entry_from-cases (suc i) es) [
      | inl (none_found, fails) ↦ inl (ground arith, none_passes np fails)
      | inr (k, found, first) ↦ inr (suc k, ground arith, later np k first)
    ]
  ]
    where
      none_passes : test e ≡ false → NonePasses test es → NonePasses test (e ∷ es)
      none_passes np fails zero e' h = ground arith
      none_passes np fails (suc j) e' h = fails j e' h

      earlier :
          test e ≡ false
          → (k : ℕ) → IsFirst test es k
          → (j : ℕ) (e' : FileTableEntry) → j < suc k
          → get_elem? (e ∷ es) j ≡ some e'
          → test e' ≡ false
      earlier np k first zero e' lt h = ground arith
      earlier np k first (suc j) e' lt h = first.before j e' (omega arith) h

      later : test e ≡ false → (k : ℕ) → IsFirst test es k → IsFirst test (e ∷ es) (suc k)
      later np k first = record {
        entry = first.entry;
        at = first.at;
        passes = first.passes;
        before = earlier np k first;
      }

  -- A scan of the file table gives -1 and no entry passes its test, or it gives the index of an
  -- entry that passes and before which none does.
  pub first_entry-cases :
      (es : List FileTableEntry)
      → ((first_entry test es ≡ minus_one) × NonePasses test es)
        ⊎ ((k : ℕ) × (first_entry test es ≡ pos k) × IsFirst test es k)
  unfolding first_entry
  first_entry-cases es = elim (first_entry_from-cases 0 es) [
    | inl r ↦ inl r
    | inr (k, found, first) ↦ inr (k, ground arith, first)
  ]

  -- A table with an entry that passes has a first one, no later than that.
  pub first_entry-some :
      (es : List FileTableEntry) (j : ℕ) (e : FileTableEntry)
      → get_elem? es j ≡ some e
      → test e ≡ true
      → (k : ℕ) × (first_entry test es ≡ pos k) × (k ≤ j) × IsFirst test es k
  first_entry-some es j e h p = elim (first_entry-cases es) [
    | inl (_, fails) ↦ absurd (clash (fails j e h))
    | inr (k, found, first) ↦ (k, found, no_later k first, first)
  ]
    where
      clash : test e ≡ false → ⊥
      clash f = cc

      no_later : (k : ℕ) → IsFirst test es k → k ≤ j
      no_later k first = elim (Bool-cases (ltb j k)) [
        | inl lt ↦ absurd (clash (first.before j e (ltb→lt j k lt) h))
        | inr ge ↦ not_ltb→le j k ge
      ]
