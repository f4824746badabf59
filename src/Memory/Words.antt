-- ===== src/Memory/Words.antt =====
-- Words and integers come back from the bytes that store them.
use mathlib.Core.List.{map}
use native.Mathlib.Nat.{zero-div, le_trans}
use file_system_project.Prelude.{
  ℕ, zero, suc, ◌+◌, ◌*◌, ◌/◌, ◌%◌, ◌≤◌, ◌<◌, ◌≡◌, refl, sym, ap, fun_ext, List, [], ◌∷◌, ◌++◌,
  arith, length, get_or, get_or-beyond, ltb, Bool-cases, inl, inr, not_ltb→le,
}
use file_system_project.Prelude.Int.{ℤ, pos, negsuc, IsInt}
use file_system_project.Memory.{
  word_at, int_at, ints_at, byte_of, word_of_int, int_of_word, words, fread,
}

pub int_of_word-word_of_int : (z : ℤ) → IsInt z → int_of_word (word_of_int z) ≡ z
unfolding int_of_word word_of_int
int_of_word-word_of_int (pos n) h = ground arith
int_of_word-word_of_int (negsuc n) h = ground arith

-- The four bytes of a word make it up.
pub bytes_of_word :
    (w : ℕ)
    → w < 4294967296
    → byte_of w 0 + 256 * byte_of w 1 + 65536 * byte_of w 2 + 16777216 * byte_of w 3 ≡ w
unfolding byte_of
bytes_of_word w h = omega arith

pub word_at-words :
    (ws : List ℕ) (i : ℕ) → get_or ws i 0 < 4294967296 → word_at (words ws) (4 * i) ≡ get_or ws i 0
unfolding word_at words byte_of
word_at-words ws i h = rw (e0, m0, e1, m1, e2, m2, e3, m3) (omega arith)
  where
    e0 : 4 * i / 4 ≡ i
    e0 = omega arith

    m0 : 4 * i % 4 ≡ 0
    m0 = omega arith

    e1 : (4 * i + 1) / 4 ≡ i
    e1 = omega arith

    m1 : (4 * i + 1) % 4 ≡ 1
    m1 = omega arith

    e2 : (4 * i + 2) / 4 ≡ i
    e2 = omega arith

    m2 : (4 * i + 2) % 4 ≡ 2
    m2 = omega arith

    e3 : (4 * i + 3) / 4 ≡ i
    e3 = omega arith

    m3 : (4 * i + 3) % 4 ≡ 3
    m3 = omega arith

pub word_of_int-lt : (z : ℤ) → IsInt z → word_of_int z < 4294967296
unfolding word_of_int
word_of_int-lt (pos n) h = omega arith
word_of_int-lt (negsuc n) h = omega arith

pub int_at-words :
    (ws : List ℕ) (i : ℕ) (z : ℤ)
    → IsInt z
    → get_or ws i 0 ≡ word_of_int z
    → int_at (words ws) (4 * i) ≡ z
unfolding int_at
int_at-words ws i z h e =
    rw (word_at-words ws i (rw e (word_of_int-lt z h)), e) (int_of_word-word_of_int z h)

byte_of-zero : (j : ℕ) → byte_of 0 j ≡ 0
unfolding byte_of
byte_of-zero j = rw zero-div refl

words-beyond : (ws : List ℕ) (a : ℕ) → 4 * length ws ≤ a → words ws a ≡ 0
unfolding words
words-beyond ws a h = rw (get_or-beyond ws (a / 4) 0 (omega arith)) (byte_of-zero (a % 4))

-- A buffer that holds just these words is read back whole.
pub fread-words : (ws : List ℕ) (n : ℕ) → 4 * length ws ≤ n → fread (words ws) 0 n ≡ words ws
unfolding fread
fread-words ws n h = fun_ext λ k. elim (Bool-cases (ltb k n)) [
  | inl inside ↦ rw inside (ap (words ws) (omega arith))
  | inr outside ↦ rw outside (sym (words-beyond ws k (le_trans h (not_ltb→le k n outside))))
]

-- From word `i` on, the list holds these integers.
abbrev pub Stored : List ℕ → ℕ → List ℤ → Type 0
Stored ws i [] = Unit {0}
Stored ws i (z ∷ zs) = IsInt z × (get_or ws i 0 ≡ word_of_int z) × Stored ws (suc i) zs

abbrev pub AllInt : List ℤ → Type 0
AllInt [] = Unit {0}
AllInt (z ∷ zs) = IsInt z × AllInt zs

pub ints_at-words :
    (ws : List ℕ) (i : ℕ) (zs : List ℤ)
    → Stored ws i zs
    → ints_at (words ws) (4 * i) (length zs) ≡ zs
unfolding ints_at
ints_at-words ws i [] h = refl
ints_at-words ws i (z ∷ zs) (z_int, e, rest) =
    let next : 4 * i + 4 ≡ 4 * suc i = omega arith in
    rw (int_at-words ws i z z_int e, next, ints_at-words ws (suc i) zs rest) refl

Stored-cons :
    (w : ℕ) (ws : List ℕ) (i : ℕ) (zs : List ℤ) → Stored ws i zs → Stored (w ∷ ws) (suc i) zs
Stored-cons w ws i [] h = tt
Stored-cons w ws i (z ∷ zs) (z_int, e, rest) = (z_int, e, Stored-cons w ws (suc i) zs rest)

pub Stored-map : (zs : List ℤ) (ws : List ℕ) → AllInt zs → Stored (map word_of_int zs ++ ws) 0 zs
Stored-map [] ws h = tt
Stored-map (z ∷ zs) ws (z_int, rest) = (
  z_int,
  refl,
  Stored-cons (word_of_int z) (map word_of_int zs ++ ws) 0 zs (Stored-map zs ws rest),
)

-- Words put in front move the integers along.
pub Stored-append :
    (us ws : List ℕ) (i j : ℕ) (zs : List ℤ)
    → length us + i ≡ j
    → Stored ws i zs
    → Stored (us ++ ws) j zs
Stored-append [] ws i j zs e h = let e' : i ≡ j = omega arith in rw e' at h
Stored-append (u ∷ us) ws i zero zs e h = absurd (omega arith)
Stored-append (u ∷ us) ws i (suc j) zs e h =
    Stored-cons u (us ++ ws) j zs (Stored-append us ws i j zs (omega arith) h)
