-- ===== src/Parser/Jobs.antt =====
-- What `perform_parse` makes of a line.
use mathlib.Core.List.{map}
use file_system_project.Prelude.{
  ℕ, zero, suc, ◌≡◌, refl, ap, Bool, true, List, [], ◌∷◌, ◌++◌, arith, ◌==◌, not, ◌&&◌,
  if◌then◌else◌, Bool-cases, inl, inr, length,
}
use file_system_project.Text.{Text, c_string}
use file_system_project.Parser.{
  split_token, is_greater, count_jobs, make_jobs, make_job, Parsed, nothing_read, jobs_read,
  null_read, parsed_jobs, parse_line, perform_parse,
}
use file_system_project.Parser.Line.{has_no_newline, read_command_line_lem}
use file_system_project.Parser.Tokens.{tokens}

-- The tokens that become jobs: all but those that are a '>' alone.
unfoldable pub without_greater : List Text → List Text
without_greater [] = []
without_greater (w ∷ ws) = if is_greater w then without_greater ws else w ∷ without_greater ws

unfoldable pub commands : Text → List Text
unfolding without_greater
commands line = without_greater (tokens (suc (length line)) line)

make_jobs-tokens :
    (fuel : ℕ) (line s : Text)
    → make_jobs fuel line s ≡ map (make_job line) (without_greater (tokens fuel s))
unfolding make_jobs tokens without_greater
make_jobs-tokens zero line s = refl
make_jobs-tokens (suc fuel) line [] = refl
make_jobs-tokens (suc fuel) line (c ∷ cs) =
    elim (Bool-cases (is_greater (split_token (c ∷ cs)).0)) [
      | inl skip ↦ rw skip (make_jobs-tokens fuel line (split_token (c ∷ cs)).1)
      | inr keep ↦ rw keep (
          ap (λ js. make_job line (split_token (c ∷ cs)).0 ∷ js)
            (make_jobs-tokens fuel line (split_token (c ∷ cs)).1))
    ]

count_jobs-tokens :
    (fuel : ℕ) (s : Text) → count_jobs fuel s ≡ length (without_greater (tokens fuel s))
unfolding count_jobs tokens without_greater
count_jobs-tokens zero s = refl
count_jobs-tokens (suc fuel) [] = refl
count_jobs-tokens (suc fuel) (c ∷ cs) =
    ground (arith, count_jobs-tokens fuel (split_token (c ∷ cs)).1)

-- The outcome for a line, by its commands.
abbrev pub outcome_of : Text → List Text → Parsed
outcome_of line [] = null_read
outcome_of line (w ∷ ws) = jobs_read (length (w ∷ ws)) (map (make_job line) (w ∷ ws))

parsed_jobs-map :
    (line : Text) (ws : List Text)
    → parsed_jobs (length ws) (map (make_job line) ws) ≡ outcome_of line ws
parsed_jobs-map line [] = refl
parsed_jobs-map line (w ∷ ws) = refl

parse_line-commands :
    (c : ℕ) (cs : Text) → parse_line (c ∷ cs) ≡ outcome_of (c ∷ cs) (commands (c ∷ cs))
unfolding parse_line commands
parse_line-commands c cs =
    let line = c ∷ cs in
    let fuel = suc (length line) in
    rw (make_jobs-tokens fuel line line, count_jobs-tokens fuel line)
      (parsed_jobs-map line (without_greater (tokens fuel line)))

abbrev pub has_no_zero : Text → Bool
has_no_zero [] = true
has_no_zero (c ∷ cs) = not (c == 0) && has_no_zero cs

c_string_self : (s : Text) → has_no_zero s ≡ true → c_string s ≡ s
unfolding c_string
c_string_self [] h = refl
c_string_self (c ∷ cs) h = ground (arith, c_string_self cs)

abbrev pub outcome : Text → Parsed
outcome [] = nothing_read
outcome (c ∷ cs) = outcome_of (c ∷ cs) (commands (c ∷ cs))

parse_line-outcome : (line : Text) → parse_line line ≡ outcome line
unfolding parse_line
parse_line-outcome [] = refl
parse_line-outcome (c ∷ cs) = parse_line-commands c cs

-- `perform_parse` on input that begins with a line and a newline, with no 0 in the line: it reads
-- both and leaves the rest. It makes a job of each token but those that are a '>' alone, in order,
-- and returns their number. If every token is a '>' alone, it reads through a NULL pointer. On an
-- empty line it makes nothing.
pub perform_parse-outcome :
    (line rest : Text)
    → has_no_newline line ≡ true
    → has_no_zero line ≡ true
    → perform_parse (line ++ (10 ∷ rest)) ≡ (rest, outcome line)
unfolding perform_parse
perform_parse-outcome line rest h z =
    rw ((read_command_line_lem line rest h).0, c_string_self line z, parse_line-outcome line) refl
