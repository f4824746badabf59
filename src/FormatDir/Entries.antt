-- ===== src/FormatDir/Entries.antt =====
-- Three entries that are copied to the start of a block are read back (format_dir.c).
use mathlib.Core.Option.{some-injective}
use file_system_project.Prelude.{
  ℕ, zero, suc, ◌+◌, ◌*◌, ◌≤◌, ◌<◌, ◌≡◌, ◌∙◌, ap, inr, some, [], ◌∷◌, arith, get_elem?,
}
use file_system_project.Memory.{Memory, fread, fwrite}
use file_system_project.Memory.Transfer.{
  fread-fwrite_self, fread-fwrite_disjoint, fread-fwrite_inside, fread-fread_inside,
}
use file_system_project.Layout.{DirectoryEntry, entry_at, entry_bytes}
use file_system_project.Layout.RoundTrip.{IsEntry, entry_at-entry_bytes, fread-entry_bytes}
use file_system_project.FormatDir.{directories}

module _ (base m : Memory) (e0 e1 e2 : DirectoryEntry) (w0 : IsEntry e0) (w1 : IsEntry e1)
    (w2 : IsEntry e2) where
  abbrev block : Memory
  block = fread (fwrite base 0 (directories m e0 e1 e2) 192) 0 512

  -- An entry's place in the block is its place in the array.
  in_array : (a : ℕ) → a + 64 ≤ 192 → fread block a 64 ≡ fread (directories m e0 e1 e2) a 64
  in_array a h =
      fread-fread_inside _ a 512 64 (omega arith)
      ∙ fread-fwrite_inside base (directories m e0 e1 e2) a 192 64 h

  entry_at-written :
      (m' : Memory) (a : ℕ) (e : DirectoryEntry)
      → IsEntry e
      → fread block a 64 ≡ fread (fwrite m' a (entry_bytes e) 64) a 64
      → entry_at (fread block a 64) ≡ e
  entry_at-written m' a e w h =
      ap entry_at (h ∙ fread-fwrite_self m' (entry_bytes e) a 64 ∙ fread-entry_bytes e w)
      ∙ entry_at-entry_bytes e w

  pub entry_at-directories :
      (k : ℕ) (e : DirectoryEntry)
      → get_elem? (e0 ∷ e1 ∷ e2 ∷ []) k ≡ some e
      → (k < 3) × (entry_at (fread block (64 * k) 64) ≡ e)
  unfolding directories
  entry_at-directories zero e h = (
    omega arith,
    entry_at-written m 0 e0 w0 (
          in_array 0 (omega arith)
          ∙ fread-fwrite_disjoint _ _ 128 64 0 64 (inr (omega arith))
          ∙ fread-fwrite_disjoint _ _ 64 64 0 64 (inr (omega arith)))
        ∙ some-injective _ _ h,
  )
  entry_at-directories (suc zero) e h = (
    omega arith,
    entry_at-written (fwrite m 0 (entry_bytes e0) 64) 64 e1 w1
          (in_array 64 (omega arith) ∙ fread-fwrite_disjoint _ _ 128 64 64 64 (inr (omega arith)))
        ∙ some-injective _ _ h,
  )
  entry_at-directories (suc (suc zero)) e h = (
    omega arith,
    entry_at-written (fwrite (fwrite m 0 (entry_bytes e0) 64) 64 (entry_bytes e1) 64) 128 e2 w2
          (in_array 128 (omega arith))
        ∙ some-injective _ _ h,
  )
  entry_at-directories (suc (suc (suc k))) e h = absurd cc
