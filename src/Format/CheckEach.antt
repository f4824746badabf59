-- ===== src/Format/CheckEach.antt =====
-- The loops of assertions of format.c.
use file_system_project.Prelude.{
  ℕ, zero, suc, ◌+◌, ◌≤◌, ◌<◌, ◌≡◌, refl, Bool, true, arith, Bool-cases, inl, inr, ◌==◌, ◌∙◌, ap,
}
use file_system_project.Format.Check.{check_each}

pub check_each_lem :
    (check : ℕ → Bool) (n i : ℕ)
    → ((k : ℕ) → i ≤ k → k < i + n → check k ≡ true)
    → check_each check n i ≡ true
unfolding check_each
check_each_lem check zero i h = refl
check_each_lem check (suc n) i h =
    rw (h i (omega arith) (omega arith))
      (check_each_lem check n (i + 1) λ k lo hi. h k (omega arith) (omega arith))

-- If the loop passes, every round's assertions hold.
pub check_each-true :
    (check : ℕ → Bool) (n i : ℕ)
    → check_each check n i ≡ true
    → (k : ℕ) → i ≤ k
    → k < i + n
    → check k ≡ true
unfolding check_each
check_each-true check zero i h k lo hi = absurd (omega arith)
check_each-true check (suc n) i h k lo hi = elim (Bool-cases (k == i)) [
  | inl first ↦ let same : k ≡ i = ground arith in ap check same ∙ ground arith
  | inr later ↦ check_each-true check n (i + 1) (ground arith) k (ground arith) (omega arith)
]
