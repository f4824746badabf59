-- ===== src/Numeral/Decimal.antt =====
-- Decimal notation is read back by the number parser.
use mathlib.Core.List.{append_assoc}
use file_system_project.Prelude.{
  ℕ, zero, suc, ◌+◌, ◌-◌, ◌*◌, ◌/◌, ◌%◌, ◌<◌, ◌≡◌, ◌∙◌, refl, ap, false, none, some, [], ◌∷◌, ◌++◌,
  arith, ltb, Bool-cases, inl, inr, true, if◌then◌else◌,
}
use file_system_project.Prelude.Int.{pos}
use file_system_project.Text.{Text}
use file_system_project.Numeral.{
  is_digit, skip_spaces, read_digits, is_empty, starts_with_digit, convert_unsigned, convert_signed,
  strtoll, parse_cmd, long_max,
}

-- The last digits of a number, at most as many as the first argument says.
unfoldable pub digits_of : ℕ → ℕ → Text
digits_of zero n = []
digits_of (suc f) n =
    let higher = digits_of f (n / 10) in
    if ltb n 10 then (48 + n) ∷ [] else higher ++ (48 + n % 10) ∷ []

-- The decimal notation of a number of at most 20 digits.
abbrev pub decimal : ℕ → Text
decimal n = digits_of 20 n

abbrev pub power_of_ten : ℕ → ℕ
power_of_ten zero = 1
power_of_ten (suc f) = 10 * power_of_ten f

read_digits-digit :
    (value c : ℕ) (cs : Text)
    → is_digit c ≡ true
    → read_digits value (c ∷ cs) ≡ read_digits (value * 10 + (c - 48)) cs
unfolding read_digits
read_digits-digit value c cs h = rw h

read_digits-digits_of :
    (f n : ℕ) (rest : Text)
    → n < power_of_ten f
    → read_digits 0 (digits_of f n ++ rest) ≡ read_digits n rest
unfolding digits_of
read_digits-digits_of zero n rest h = ap (λ k. read_digits k rest) (omega arith)
read_digits-digits_of (suc f) n rest h = elim (Bool-cases (ltb n 10)) [
  | inl last ↦ rw last (
      read_digits-digit 0 (48 + n) rest (ground arith) ∙ ap (λ k. read_digits k rest) (omega arith))
  | inr more ↦
      rw (more, append_assoc (digits_of f (n / 10)) ((48 + n % 10) ∷ []) rest)
        (read_digits-digits_of f (n / 10) ((48 + n % 10) ∷ rest) (omega arith)
          ∙ read_digits-digit (n / 10) (48 + n % 10) rest (ground arith)
          ∙ ap (λ k. read_digits k rest) (omega arith))
]

read_digits-stop :
    (value : ℕ) (s : Text) → starts_with_digit s ≡ false → read_digits value s ≡ (value, s)
unfolding read_digits
read_digits-stop value [] h = refl
read_digits-stop value (c ∷ cs) h = rw h refl

-- A numeral begins with a digit.
digits_of-head :
    (f n : ℕ) (rest : Text)
    → (c : ℕ) × (cs : Text) × (digits_of (suc f) n ++ rest ≡ c ∷ cs) × (is_digit c ≡ true)
unfolding digits_of
digits_of-head zero n rest = elim (Bool-cases (ltb n 10)) [
  | inl last ↦ (48 + n, rest, rw last refl, ground arith)
  | inr more ↦ (48 + n % 10, rest, rw more refl, ground arith)
]
digits_of-head (suc f) n rest = elim (Bool-cases (ltb n 10)) [
  | inl last ↦ (48 + n, rest, rw last refl, ground arith)
  | inr more ↦
      let (c, cs, e, h) = digits_of-head f (n / 10) ((48 + n % 10) ∷ rest) in
      (c, cs, rw (more, append_assoc (digits_of (suc f) (n / 10)) ((48 + n % 10) ∷ []) rest) e, h)
]

convert-digit :
    (c : ℕ) (cs : Text)
    → is_digit c ≡ true
    → strtoll (c ∷ cs) ≡ convert_unsigned (c ∷ cs) false (c ∷ cs)
unfolding strtoll skip_spaces convert_signed
convert-digit c cs h = ground arith

parse_digits :
    (s : Text) (c : ℕ) (cs : Text) (n : ℕ) (rest : Text)
    → s ≡ c ∷ cs
    → is_digit c ≡ true
    → read_digits 0 s ≡ (n, rest)
    → parse_cmd s ≡ (if ltb long_max n then none else if is_empty rest then some (pos n) else none)
unfolding parse_cmd convert_unsigned
parse_digits s c cs n rest e h r = ground (arith, convert-digit c cs h)

-- The number parser on the decimal notation of a number below 10^20, with no digit behind it: it
-- gives the number if that is at most LONG_MAX and nothing follows; otherwise it refuses.
pub parse_cmd-decimal :
    (n : ℕ) (rest : Text)
    → n < 100000000000000000000
    → starts_with_digit rest ≡ false
    → parse_cmd (decimal n ++ rest)
      ≡ (if ltb long_max n then none else if is_empty rest then some (pos n) else none)
parse_cmd-decimal n rest lt stop =
    let (c, cs, e, h) = digits_of-head 19 n rest in
    parse_digits (decimal n ++ rest) c cs n rest e h
      (read_digits-digits_of 20 n rest lt ∙ read_digits-stop n rest stop)
