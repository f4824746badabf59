-- ===== src/Parser/Tokens.antt =====
-- The tokens of a line.
use mathlib.Core.List.{flatten}
use file_system_project.Prelude.{
  ℕ, zero, suc, ◌≤◌, ◌<◌, ◌≡◌, refl, ap, ◌∙◌, ◌⊎◌, Bool, true, false, none, some, List, [], ◌∷◌,
  ◌++◌, arith, Bool-cases, inl, inr, length,
}
use file_system_project.Text.{Text}
use file_system_project.Parser.{is_a_deliminator, split_token, get_next_token}

-- What the calls of `get_next_token` give until NULL.
unfoldable pub tokens : ℕ → Text → List Text
unfolding get_next_token
tokens zero s = []
tokens (suc fuel) s = elim (get_next_token s) [
  | none ↦ []
  | some (token, rest) ↦ token ∷ tokens fuel rest
]

split_token-append : (s : Text) → (split_token s).0 ++ (split_token s).1 ≡ s
unfolding split_token
split_token-append [] = refl
split_token-append (c ∷ cs) = ground (arith, split_token-append cs)

split_token-shorter : (c : ℕ) (cs : Text) → length (split_token (c ∷ cs)).1 ≤ length cs
unfolding split_token
split_token-shorter c [] = ground arith
split_token-shorter c (b ∷ cs) = ground (arith, split_token-shorter b cs)

-- No delimiter stands before the last character.
abbrev pub EndsAtDelimiter : Text → Type 0
EndsAtDelimiter [] = ⊥
EndsAtDelimiter (c ∷ []) = Unit {0}
EndsAtDelimiter (c ∷ d ∷ cs) = (is_a_deliminator c ≡ false) × EndsAtDelimiter (d ∷ cs)

split_token-head : (c : ℕ) (cs : Text) → (w : Text) × ((split_token (c ∷ cs)).0 ≡ c ∷ w)
unfolding split_token
split_token-head c cs = elim (Bool-cases (is_a_deliminator c)) [
  | inl stop ↦ ([], ground arith)
  | inr go ↦ ((split_token cs).0, ground arith)
]

split_token-EndsAtDelimiter : (c : ℕ) (cs : Text) → EndsAtDelimiter (split_token (c ∷ cs)).0
unfolding split_token
split_token-EndsAtDelimiter c [] = elim (Bool-cases (is_a_deliminator c)) [
  | inl stop ↦ rw stop tt
  | inr go ↦ rw go tt
]
split_token-EndsAtDelimiter c (d ∷ ds) = elim (Bool-cases (is_a_deliminator c)) [
  | inl stop ↦ rw stop tt
  | inr go ↦
      let (w, e) = split_token-head d ds in
      let ih = split_token-EndsAtDelimiter d ds in rw go (rw e (go, rw e at ih))
]

-- The last character is a delimiter.
unfoldable pub closed : Text → Bool
closed [] = false
closed (c ∷ []) = is_a_deliminator c
closed (c ∷ d ∷ cs) = closed (d ∷ cs)

-- Every token has at least one character and no delimiter before its last one, and every token but
-- the last ends with a delimiter: no shorter piece is a token, and no longer one.
abbrev pub EachToken : List Text → Type 0
EachToken [] = Unit {0}
EachToken (w ∷ []) = EndsAtDelimiter w
EachToken (w ∷ v ∷ ws) = EndsAtDelimiter w × (closed w ≡ true) × EachToken (v ∷ ws)

-- A token that is not closed has nothing behind it.
split_token-closed :
    (c : ℕ) (cs : Text) → (closed (split_token (c ∷ cs)).0 ≡ true) ⊎ ((split_token (c ∷ cs)).1 ≡ [])
unfolding split_token closed
split_token-closed c [] = inr (ground arith)
split_token-closed c (d ∷ ds) = elim (Bool-cases (is_a_deliminator c)) [
  | inl stop ↦ inl (rw stop stop)
  | inr go ↦
      let (w, e) = split_token-head d ds in
      elim (split_token-closed d ds) [
        | inl ends ↦ inl (rw go (rw e (rw e at ends)))
        | inr done ↦ inr (rw go done)
      ]
]

tokens-nil : (fuel : ℕ) → tokens fuel [] ≡ []
unfolding tokens
tokens-nil zero = refl
tokens-nil (suc fuel) = refl

EachToken-cons :
    (w : Text) (ws : List Text)
    → EndsAtDelimiter w
    → (closed w ≡ true) ⊎ (ws ≡ [])
    → EachToken ws
    → EachToken (w ∷ ws)
EachToken-cons w [] h last each = h
EachToken-cons w (v ∷ vs) h (inl ends) each = (h, ends, each)
EachToken-cons w (v ∷ vs) h (inr none_left) each = absurd cc

tokens_behind :
    (fuel c : ℕ) (cs : Text)
    → (closed (split_token (c ∷ cs)).0 ≡ true) ⊎ (tokens fuel (split_token (c ∷ cs)).1 ≡ [])
tokens_behind fuel c cs = elim (split_token-closed c cs) [
  | inl ends ↦ inl ends
  | inr done ↦ inr (ap (tokens fuel) done ∙ tokens-nil fuel)
]

pieces_of :
    (fuel : ℕ) (s : Text)
    → length s < fuel
    → (flatten (tokens fuel s) ≡ s) × EachToken (tokens fuel s)
unfolding tokens flatten
pieces_of zero s h = elim h [ ]
pieces_of (suc fuel) [] h = (refl, tt)
pieces_of (suc fuel) (c ∷ cs) h =
    let (joined, each) =
      pieces_of fuel (split_token (c ∷ cs)).1 (omega (arith, split_token-shorter c cs)) in
    (
      ap (λ r. (split_token (c ∷ cs)).0 ++ r) joined ∙ split_token-append (c ∷ cs),
      EachToken-cons (split_token (c ∷ cs)).0 _ (split_token-EndsAtDelimiter c cs)
          (tokens_behind fuel c cs) each,
    )

-- The tokens of a line that repeated calls of `get_next_token` give until NULL, one more call than
-- the line has characters at most, make up the line again. Each of them has at least one character
-- and no delimiter before its last one, and each but the last ends with a delimiter.
pub tokens-flatten :
    (s : Text) → (flatten (tokens (suc (length s)) s) ≡ s) × EachToken (tokens (suc (length s)) s)
tokens-flatten s = pieces_of (suc (length s)) s (omega arith)
