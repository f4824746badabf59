-- ===== src/SequentialFile.antt =====
-- A file that is written from front to back: `fwrite` at the position, which then moves on; and a
-- loop that writes items of one width.
use file_system_project.Prelude.{ℕ, zero, suc, ◌+◌, ◌*◌, ◌≤◌, ◌<◌, ◌≡◌, refl, ◌∙◌, inr, arith}
use file_system_project.Memory.{Memory, fread, fwrite}
use file_system_project.Memory.Transfer.{fread-fwrite_self, fread-fwrite_disjoint}

pub record Output : Type 0 where
  pub image : Memory
  pub position : ℕ

unfoldable pub put : Memory → ℕ → Output → Output
put b n o = record { image = fwrite o.image o.position b n; position = o.position + n }

-- Items i, i + 1, ... of width w, as many as the first number says.
unfoldable pub put_each : (ℕ → Memory) → ℕ → ℕ → ℕ → Output → Output
unfolding put
put_each item w zero i o = o
put_each item w (suc n) i o = put_each item w n (i + 1) (put (item i) w o)

pub position-put_each :
    (item : ℕ → Memory) (w n i : ℕ) (o : Output)
    → (put_each item w n i o).position ≡ o.position + n * w
unfolding put_each
position-put_each item w zero i o = omega arith
position-put_each item w (suc n) i o =
    omega (arith, position-put_each item w n (i + 1) (put (item i) w o))

-- What lies before the position stays.
pub fread-put_each_below :
    (item : ℕ → Memory) (w n i : ℕ) (o : Output) (a k : ℕ)
    → a + k ≤ o.position
    → fread (put_each item w n i o).image a k ≡ fread o.image a k
unfolding put_each
fread-put_each_below item w zero i o a k h = refl
fread-put_each_below item w (suc n) i o a k h =
    fread-put_each_below item w n (i + 1) (put (item i) w o) a k (omega arith)
    ∙ fread-fwrite_disjoint o.image (item i) o.position w a k (inr h)

-- Item j is where it was put.
pub fread-put_each :
    (item : ℕ → Memory) (w n i j : ℕ) (o : Output)
    → j < n
    → fread (put_each item w n i o).image (o.position + j * w) w ≡ fread (item (i + j)) 0 w
unfolding put_each
fread-put_each item w zero i j o h = elim h [ ]
fread-put_each item w (suc n) i zero o h =
    let start : o.position + 0 * w ≡ o.position = omega arith in
    let first : i + 0 ≡ i = omega arith in
    rw (start, first)
      (fread-put_each_below item w n (i + 1) (put (item i) w o) o.position w (omega arith)
        ∙ fread-fwrite_self o.image (item i) o.position w)
fread-put_each item w (suc n) i (suc j) o h =
    let start : o.position + suc j * w ≡ o.position + w + j * w = grind arith in
    let next : i + suc j ≡ i + 1 + j = omega arith in
    rw (start, next) (fread-put_each item w n (i + 1) j (put (item i) w o) (omega arith))
