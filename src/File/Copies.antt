-- ===== src/File/Copies.antt =====
-- What `f_write` (filesystem.c) puts together before it writes: its data and the block that is filled
-- up; and its loop with nothing left.
use file_system_project.Prelude.{
  ℕ, zero, suc, ◌+◌, ◌-◌, ◌*◌, ◌<◌, ◌≡◌, refl, ap, inl, inr, Bool-cases, ltb, ltb→lt, not_ltb→le,
  false, some, arith,
}
use file_system_project.Prelude.Int.{ℤ, pos}
use file_system_project.Memory.{Memory, fwrite}
use file_system_project.Store.{FileSystem}
use file_system_project.File.Write.{copies, filled, write_loop, copies_of, Writing}

pub in_copies : (m j k r : ℕ) → j < m → r < k → j * k + r < k * m
in_copies zero j k r lt inside = absurd (omega arith)
in_copies (suc m) j k r lt inside = elim (Bool-cases (ltb j m)) [
  | inl before ↦
      let earlier = in_copies m j k r (ltb→lt j m before) inside in
      let whole : k * suc m ≡ k * m + k = omega arith in omega arith
  | inr last ↦
      let same : j ≡ m = last_one last in
      let whole : k * suc m ≡ j * k + k = rw same (omega arith) in omega arith
]
  where
    last_one : ltb j m ≡ false → j ≡ m
    last_one h = let le = not_ltb→le j m h in omega arith

-- Byte r of copy j is byte r of the buffer.
pub copies-at :
    (m j k r : ℕ) (buffer : Memory) → j < m → r < k → copies m k buffer (j * k + r) ≡ buffer r
unfolding copies fwrite
copies-at zero j k r buffer lt inside = absurd (omega arith)
copies-at (suc m) j k r buffer lt inside = elim (Bool-cases (ltb j m)) [
  | inl before ↦
      let earlier = copies-at m j k r buffer (ltb→lt j m before) inside in
      let below = in_copies m j k r (ltb→lt j m before) inside in
      let same : k * m ≡ m * k = omega arith in ground (arith, earlier, below, same)
  | inr last ↦
      let same : j ≡ m = last_one last in
      let at : j * k + r - m * k ≡ r = rw same (omega arith) in
      let start : j * k ≡ m * k = ap (λ x. x * k) same in ground (arith, at, start)
]
  where
    last_one : ltb j m ≡ false → j ≡ m
    last_one h = let le = not_ltb→le j m h in omega arith

pub filled-kept :
    (block data_bytes : Memory) (o n x : ℕ) → x < o → filled block o data_bytes n x ≡ block x
unfolding filled fwrite
filled-kept block data_bytes o n x lt = ground arith

pub filled-data :
    (block data_bytes : Memory) (o n x : ℕ)
    → x < n
    → filled block o data_bytes n (o + x) ≡ data_bytes x
unfolding filled fwrite
filled-data block data_bytes o n x lt = let at : o + x - o ≡ x = omega arith in ground (arith, at)

pub copies_of-ok :
    (m k : ℕ) (buffer : Memory) (s : FileSystem)
    → copies_of (pos m) (pos k) buffer s ≡ some (copies m k buffer, s)
unfolding copies
copies_of-ok zero k buffer s = refl
copies_of-ok (suc m) k buffer s = ground arith

pub write_loop-done :
    (fuel : ℕ) (fd : ℤ) (data_bytes : Memory) (old_filesize : ℤ) (w : Writing) (s : FileSystem)
    → w.left ≡ 0
    → write_loop (fuel + 1) fd data_bytes old_filesize w s ≡ some (tt, s)
unfolding write_loop
write_loop-done fuel fd data_bytes old_filesize w s h =
    let one_more : fuel + 1 ≡ suc fuel = omega arith in rw one_more (ground arith)
