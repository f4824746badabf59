-- ===== src/Memory/Transfer.antt =====
-- What a read sees after a write.
use file_system_project.Prelude.{ℕ, ◌+◌, ◌≤◌, ◌-◌, ◌≡◌, ap, fun_ext, ◌⊎◌, arith}
use file_system_project.Memory.{Memory, fread, fwrite}

-- The first n bytes of a buffer.
pub fread-fwrite_self : (m b : Memory) (a n : ℕ) → fread (fwrite m a b n) a n ≡ fread b 0 n
unfolding fread fwrite
fread-fwrite_self m b a n = fun_ext λ k. ground (arith, inside k)
  where
    inside : (k : ℕ) → b (a + k - a) ≡ b (0 + k)
    inside k = ap b (omega arith)

pub fread-fwrite_disjoint :
    (m b : Memory) (a n c k : ℕ)
    → (a + n ≤ c) ⊎ (c + k ≤ a)
    → fread (fwrite m a b n) c k ≡ fread m c k
unfolding fread fwrite
fread-fwrite_disjoint m b a n c k h = fun_ext λ i. ground arith

-- A shorter write at the start of what is read overlays the old bytes.
pub fread-fwrite_overlay :
    (m b : Memory) (a n k : ℕ) → n ≤ k → fread (fwrite m a b n) a k ≡ fwrite (fread m a k) 0 b n
unfolding fread fwrite
fread-fwrite_overlay m b a n k h = fun_ext λ i. ground (arith, inside i)
  where
    inside : (i : ℕ) → b (a + i - a) ≡ b (i - 0)
    inside i = ap b (omega arith)

-- What is read lies in what is written, or read, at the start.
pub fread-fwrite_inside :
    (m b : Memory) (a n k : ℕ) → a + k ≤ n → fread (fwrite m 0 b n) a k ≡ fread b a k
unfolding fread fwrite
fread-fwrite_inside m b a n k h = fun_ext λ i. ground (arith, inside i)
  where
    inside : (i : ℕ) → b (a + i - 0) ≡ b (a + i)
    inside i = ap b (omega arith)

pub fread-fread_inside :
    (m : Memory) (a n k : ℕ) → a + k ≤ n → fread (fread m 0 n) a k ≡ fread m a k
unfolding fread
fread-fread_inside m a n k h = fun_ext λ i. ground (arith, inside i)
  where
    inside : (i : ℕ) → m (0 + (a + i)) ≡ m (a + i)
    inside i = ap m (omega arith)
