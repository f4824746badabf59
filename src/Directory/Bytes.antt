-- ===== src/Directory/Bytes.antt =====
-- The bytes of a directory's block with an entry put in (filesystem.c).
use file_system_project.Prelude.{ℕ, ◌*◌, ◌<◌, ◌≡◌, ◌∙◌, ap, arith, inr}
use file_system_project.Memory.{Memory, fread, fwrite}
use file_system_project.Memory.Transfer.{
  fread-fwrite_self, fread-fwrite_disjoint, fread-fwrite_inside,
}
use file_system_project.Layout.{DirectoryEntry, entry_at, entry_bytes}
use file_system_project.Layout.RoundTrip.{IsEntry, entry_at-entry_bytes, fread-entry_bytes}

-- The block with the entry put at place q.
abbrev pub with_entry : Memory → ℕ → DirectoryEntry → Memory
with_entry block q e = fwrite block (64 * q) (entry_bytes e) 64

pub entry_at-with_entry :
    (block : Memory) (q : ℕ) (e : DirectoryEntry)
    → IsEntry e
    → entry_at (fread (with_entry block q e) (64 * q) 64) ≡ e
entry_at-with_entry block q e w =
    ap entry_at (fread-fwrite_self block (entry_bytes e) (64 * q) 64 ∙ fread-entry_bytes e w)
    ∙ entry_at-entry_bytes e w

pub fread-with_entry_self :
    (m block : Memory) (q : ℕ) (e : DirectoryEntry)
    → q < 8
    → IsEntry e
    → entry_at (fread (fwrite m 0 (with_entry block q e) 512) (64 * q) 64) ≡ e
fread-with_entry_self m block q e lt w =
    ap entry_at (fread-fwrite_inside m (with_entry block q e) (64 * q) 512 64 (omega arith))
    ∙ entry_at-with_entry block q e w

pub fread-with_entry_below :
    (m block : Memory) (q r : ℕ) (e : DirectoryEntry)
    → q < 8
    → r < q
    → fread (fwrite m 0 (with_entry block q e) 512) (64 * r) 64 ≡ fread block (64 * r) 64
fread-with_entry_below m block q r e lt below =
    fread-fwrite_inside m (with_entry block q e) (64 * r) 512 64 (omega arith)
    ∙ fread-fwrite_disjoint block (entry_bytes e) (64 * q) 64 (64 * r) 64 (inr (omega arith))
