-- ===== src/Parser/Command.antt =====
-- The command of a token: its words, and whether it runs in the background.
use file_system_project.Prelude.{
  ℕ, ◌≡◌, refl, ap, Bool, true, false, some, List, [], ◌∷◌, ◌++◌, arith, ◌==◌, not, ◌&&◌,
  if◌then◌else◌, Bool-cases, inl, inr,
}
use file_system_project.Text.{Text, words_of, strtok}
use file_system_project.Parser.{
  is_white_space, split_white_space, is_a_deliminator, last_element_of, is_last, without_last,
  command_of, make_job, Process,
}

-- No delimiter stands in the text.
abbrev pub is_plain : Text → Bool
is_plain [] = true
is_plain (c ∷ cs) = not (is_a_deliminator c) && is_plain cs

last_element_of-snoc : (w : Text) (c : ℕ) → last_element_of (w ++ c ∷ []) ≡ some c
unfolding last_element_of
last_element_of-snoc [] c = refl
last_element_of-snoc (a ∷ []) c = refl
last_element_of-snoc (a ∷ b ∷ w) c = last_element_of-snoc (b ∷ w) c

without_last-snoc : (w : Text) (c : ℕ) → without_last (w ++ c ∷ []) ≡ w
unfolding without_last
without_last-snoc [] c = refl
without_last-snoc (a ∷ []) c = refl
without_last-snoc (a ∷ b ∷ w) c = ap (λ t. a ∷ t) (without_last-snoc (b ∷ w) c)

is_last-is_plain :
    (w : Text) (c : ℕ) → is_plain w ≡ true → is_a_deliminator c ≡ true → is_last c w ≡ false
unfolding last_element_of
is_last-is_plain [] c h d = refl
is_last-is_plain (a ∷ []) c h d = ground arith
is_last-is_plain (a ∷ b ∷ w) c h d = is_last-is_plain (b ∷ w) c (ground arith) d

words_of-snoc :
    (is_delimiter : ℕ → Bool) (w : Text) (c : ℕ)
    → is_delimiter c ≡ true
    → words_of is_delimiter (w ++ c ∷ []) ≡ words_of is_delimiter w
unfolding words_of
words_of-snoc is_delimiter [] c h = rw h refl
words_of-snoc is_delimiter (a ∷ w) c h = rw (words_of-snoc is_delimiter w c h) refl

split_white_space-snoc : (w : Text) → split_white_space (w ++ b'<' ∷ []) ≡ split_white_space w
unfolding split_white_space strtok
split_white_space-snoc w = rw (words_of-snoc is_white_space w b'<' refl) refl

command_of-is_plain : (w : Text) → is_plain w ≡ true → command_of w ≡ w
unfolding command_of
command_of-is_plain w h =
    rw
      (
        is_last-is_plain w b'&' h refl,
        is_last-is_plain w b';' h refl,
        is_last-is_plain w b'>' h refl,
      )
      refl

command_of-snoc :
    (w : Text) (c : ℕ)
    → is_plain w ≡ true
    → is_a_deliminator c ≡ true
    → command_of (w ++ c ∷ []) ≡ (if c == b'<' then w ++ c ∷ [] else w)
unfolding command_of
command_of-snoc w c h d = ground (
  arith,
  last_element_of-snoc w c,
  without_last-snoc w c,
  is_last-is_plain w b';' h refl,
  is_last-is_plain w b'>' h refl,
)

words_of_command :
    (w : Text) (c : ℕ)
    → is_plain w ≡ true
    → is_a_deliminator c ≡ true
    → split_white_space (command_of (w ++ c ∷ [])) ≡ split_white_space w
words_of_command w c h d = elim (Bool-cases (c == b'<')) [
  | inl less ↦
      let same : c ≡ b'<' = ground arith in
      rw (command_of-snoc w c h d, less, same) (split_white_space-snoc w)
  | inr other ↦ rw (command_of-snoc w c h d, other) refl
]

-- The job of a text with no delimiter in it, alone or with one behind it as a token, runs the
-- words of that text; it runs in the background exactly if the delimiter is '&'.
pub make_job-command :
    (line w : Text) (c : ℕ)
    → is_plain w ≡ true
    → is_a_deliminator c ≡ true
    → let words : List Process = record { pid = 0; args = split_white_space w; status = 0 } ∷ [] in
      ((make_job line (w ++ c ∷ [])).processes ≡ words)
      × ((make_job line (w ++ c ∷ [])).run_in_background ≡ (c == b'&'))
      × ((make_job line w).processes ≡ words)
      × ((make_job line w).run_in_background ≡ false)
unfolding make_job
make_job-command line w c h d =
    let words : List Text → List Process =
      λ args. record { pid = 0; args = args; status = 0 } ∷ [] in
    (
      ap words (words_of_command w c h d),
      ground (arith, last_element_of-snoc w c),
      ap (λ s. words (split_white_space s)) (command_of-is_plain w h),
      is_last-is_plain w b'&' h refl,
    )
