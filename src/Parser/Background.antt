-- ===== src/Parser/Background.antt =====
-- What the parser makes of a command with one '&' behind it.
use mathlib.Core.List.{append_assoc}
use file_system_project.Prelude.{
  sym, ◌≢◌, ℕ, zero, suc, ◌≡◌, refl, ap, ◌∙◌, true, false, List, [], ◌∷◌, ◌++◌, arith, ◌==◌,
  Bool-cases, inl, inr, length,
}
use file_system_project.Text.{Text, words_of, strtok, text_eq}
use file_system_project.Parser.{
  is_white_space, split_white_space, is_a_deliminator, split_token, get_next_token,
  is_white_space_job, which_is_contained, no_redirection, make_job, perform_parse, jobs_read,
}
use file_system_project.Parser.Line.{has_no_newline}
use file_system_project.Parser.Tokens.{tokens}
use file_system_project.Parser.Jobs.{
  without_greater, commands, outcome_of, has_no_zero, perform_parse-outcome,
}
use file_system_project.Parser.Command.{is_plain}

split_token-plain :
    (w : Text) (c : ℕ)
    → is_plain w ≡ true
    → is_a_deliminator c ≡ true
    → split_token (w ++ c ∷ []) ≡ (w ++ c ∷ [], [])
unfolding split_token
split_token-plain [] c h d = rw d refl
split_token-plain (a ∷ w) c h d = ground (arith, split_token-plain w c)

pub which_is_contained-plain :
    (w : Text) → is_plain w ≡ true → which_is_contained (w ++ b'&' ∷ []) ≡ no_redirection
unfolding which_is_contained
which_is_contained-plain [] h = refl
which_is_contained-plain (a ∷ w) h = ground (arith, which_is_contained-plain w)

words_of-white :
    (w : Text)
    → is_plain w ≡ true
    → is_white_space_job (w ++ b'&' ∷ []) ≡ true
    → words_of is_white_space w ≡ ([], [])
unfolding words_of is_white_space_job
words_of-white [] h e = refl
words_of-white (a ∷ w) h e = ground (arith, words_of-white w)

tokens-nil : (fuel : ℕ) → tokens fuel [] ≡ []
unfolding tokens get_next_token
tokens-nil zero = refl
tokens-nil (suc fuel) = refl

tokens-one :
    (fuel c : ℕ) (cs t : Text)
    → split_token (c ∷ cs) ≡ (t, [])
    → tokens (suc fuel) (c ∷ cs) ≡ t ∷ []
unfolding tokens get_next_token
tokens-one fuel c cs t e = ap (λ r. r.0 ∷ tokens fuel r.1) e ∙ ap (λ ts. t ∷ ts) (tokens-nil fuel)

commands-plain :
    (a : ℕ) (w : Text)
    → is_plain (a ∷ w) ≡ true
    → commands (a ∷ (w ++ b'&' ∷ [])) ≡ (a ∷ (w ++ b'&' ∷ [])) ∷ []
unfolding commands without_greater text_eq
commands-plain a w h =
    let line = a ∷ (w ++ b'&' ∷ []) in
    let other : (a == b'>') ≡ false = ground arith in
    ap without_greater
      (tokens-one (length line) a (w ++ b'&' ∷ []) line (split_token-plain (a ∷ w) b'&' h refl))
    ∙ rw (without_greater, text_eq, other) refl

pub is_white_space_job-plain :
    (w name : Text) (args : List Text)
    → is_plain w ≡ true
    → split_white_space w ≡ name ∷ args
    → is_white_space_job (w ++ b'&' ∷ []) ≡ false
unfolding split_white_space strtok
is_white_space_job-plain w name args h e = elim (Bool-cases (is_white_space_job (w ++ b'&' ∷ []))) [
  | inl white ↦ absurd (ground (arith, words_of-white w h white))
  | inr black ↦ black
]

has_no_newline-snoc : (w : Text) → has_no_newline w ≡ true → has_no_newline (w ++ b'&' ∷ []) ≡ true
has_no_newline-snoc [] h = refl
has_no_newline-snoc (c ∷ cs) h = ground (arith, has_no_newline-snoc cs)

has_no_zero-snoc : (w : Text) → has_no_zero w ≡ true → has_no_zero (w ++ b'&' ∷ []) ≡ true
has_no_zero-snoc [] h = refl
has_no_zero-snoc (c ∷ cs) h = ground (arith, has_no_zero-snoc cs)

pub parsed-background :
    (a : ℕ) (w rest : Text)
    → is_plain (a ∷ w) ≡ true
    → has_no_newline (a ∷ w) ≡ true
    → has_no_zero (a ∷ w) ≡ true
    → let line = a ∷ (w ++ b'&' ∷ []) in
      perform_parse (a ∷ (w ++ (b'&' ∷ 10 ∷ rest))) ≡ (rest, jobs_read 1 (make_job line line ∷ []))
parsed-background a w rest h nl nz =
    let line = a ∷ (w ++ b'&' ∷ []) in
    ap (λ t. perform_parse (a ∷ t)) (sym (append_assoc w (b'&' ∷ []) (10 ∷ rest)))
    ∙ perform_parse-outcome line rest (has_no_newline-snoc (a ∷ w) nl) (has_no_zero-snoc (a ∷ w) nz)
    ∙ ap (λ ts. (rest, outcome_of line ts)) (commands-plain a w h)

pub no_words : (name : Text) (args : List Text) → split_white_space [] ≢ name ∷ args
unfolding split_white_space strtok words_of
no_words name args e = cc
