-- ===== src/Numeral.antt =====
-- Numbers on the command line: `strtoll` in base 10, and the tests of its outcome that `parseCmd`
-- (format.c) and the shell's `kill`, `fg` and `bg` (shell.c) repeat word for word.
pub mod Decimal
use file_system_project.Prelude.{
  ℕ, ◌+◌, ◌-◌, ◌*◌, ◌^◌, Bool, true, false, not, ◌&&◌, ◌||◌, Option, none, some, [], ◌∷◌, ltb, leb,
  ◌==◌, if◌then◌else◌,
}
use file_system_project.Prelude.Int.{ℤ, pos, neg_ℕ}
use file_system_project.Text.{Text}

abbrev pub is_digit : ℕ → Bool
is_digit c = leb b'0' c && leb c b'9'

-- `isspace`: a space, or one of the five control characters from '\t' to '\r'.
abbrev pub is_space : ℕ → Bool
is_space c = c == 32 || leb 9 c && leb c 13

unfoldable pub skip_spaces : Text → Text
skip_spaces [] = []
skip_spaces (c ∷ cs) = if is_space c then skip_spaces cs else c ∷ cs

-- The digits that the text begins with, behind those that make `value`; and the rest.
unfoldable pub read_digits : ℕ → Text → ℕ × Text
read_digits value [] = (value, [])
read_digits value (c ∷ cs) =
    if is_digit c then read_digits (value * 10 + (c - b'0')) cs else (value, c ∷ cs)

abbrev pub starts_with_digit : Text → Bool
starts_with_digit [] = false
starts_with_digit (c ∷ cs) = is_digit c

-- What `strtoll` leaves: its result, `endptr`, whether `nptr != endptr`, and `errno == ERANGE`.
pub record Conversion : Type 0 where
  pub number : ℤ
  pub rest : Text
  pub found : Bool
  pub out_of_range : Bool

abbrev pub long_max : ℕ
long_max = 9223372036854775807

abbrev pub not_converted : Text → Conversion
not_converted s = record { number = pos 0; rest = s; found = false; out_of_range = false }

-- Behind the sign; a number out of range is the nearest one in range.
unfoldable pub convert_unsigned : Text → Bool → Text → Conversion
unfolding read_digits
convert_unsigned whole negative s =
    let (value, rest) = read_digits 0 s in
    let limit = if negative then long_max + 1 else long_max in
    let magnitude = if ltb limit value then limit else value in
    if starts_with_digit s
    then record {
      number = if negative then neg_ℕ magnitude else pos magnitude;
      rest = rest;
      found = true;
      out_of_range = ltb limit value;
    }
    else not_converted whole

unfoldable pub convert_signed : Text → Text → Conversion
unfolding convert_unsigned
convert_signed whole [] = not_converted whole
convert_signed whole (c ∷ cs) =
    if c == b'-'
    then convert_unsigned whole true cs
    else if c == b'+'
    then convert_unsigned whole false cs
    else convert_unsigned whole false (c ∷ cs)

unfoldable pub strtoll : Text → Conversion
unfolding skip_spaces convert_signed
strtoll s = convert_signed s (skip_spaces s)

abbrev pub is_empty : Text → Bool
is_empty [] = true
is_empty (c ∷ cs) = false

-- `none` where the code prints that the number is invalid. With base 10, `errno` is 0 or ERANGE.
unfoldable pub parse_cmd : Text → Option ℤ
unfolding strtoll
parse_cmd s =
    let c = strtoll s in
    if not c.found
    then none
    else if c.out_of_range
    then none
    else if not (is_empty c.rest)
    then none
    else some c.number
