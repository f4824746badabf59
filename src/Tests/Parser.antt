-- ===== src/Tests/Parser.antt =====
-- The theorems on numbers and the parser at concrete lines.
use mathlib.Core.List.{flatten}
use file_system_project.Prelude.{◌≡◌, refl, false, none, some, [], ◌∷◌, ◌++◌, arith, List}
use file_system_project.Prelude.Int.{pos, negsuc}
use file_system_project.Text.{Text, strtok, text_eq}
use file_system_project.Numeral.{parse_cmd}
use file_system_project.Numeral.Decimal.{digits_of, parse_cmd-decimal}
use file_system_project.Parser.{Process, perform_parse, make_job, split_white_space, null_read}
use file_system_project.Parser.Tokens.{tokens, EachToken, tokens-flatten}
use file_system_project.Parser.Jobs.{outcome, perform_parse-outcome}
use file_system_project.Parser.Command.{make_job-command}

-- "ls a,b; x>y&"
abbrev pub line : Text
line = b'l' ∷ b's' ∷ 32 ∷ b'a' ∷ b',' ∷ b'b' ∷ b';' ∷ 32 ∷ b'x' ∷ b'>' ∷ b'y' ∷ b'&' ∷ []

tokens-line :
    tokens 13 line
    ≡ (b'l' ∷ b's' ∷ 32 ∷ b'a' ∷ b',' ∷ b'b' ∷ b';' ∷ [])
      ∷ (32 ∷ b'x' ∷ b'>' ∷ [])
      ∷ (b'y' ∷ b'&' ∷ [])
      ∷ []
unfolding tokens
tokens-line = refl

only_greater : perform_parse (b'>' ∷ b'>' ∷ 10 ∷ []) ≡ ([], null_read)
unfolding perform_parse text_eq
only_greater = refl

words_of_line : split_white_space (32 ∷ b'a' ∷ b',' ∷ b'b' ∷ []) ≡ (b'a' ∷ []) ∷ (b'b' ∷ []) ∷ []
unfolding split_white_space strtok
words_of_line = refl

negative_number : parse_cmd (32 ∷ b'-' ∷ b'7' ∷ []) ≡ some (negsuc 6)
unfolding parse_cmd
negative_number = refl

not_a_number : parse_cmd (b'7' ∷ b'x' ∷ []) ≡ none
unfolding parse_cmd
not_a_number = refl

parse_cmd-decimal_example : parse_cmd (digits_of 20 407 ++ []) ≡ some (pos 407)
parse_cmd-decimal_example = parse_cmd-decimal 407 [] (omega arith) refl

tokens-flatten_example : (flatten (tokens 13 line) ≡ line) × EachToken (tokens 13 line)
tokens-flatten_example = tokens-flatten line

perform_parse-outcome_example : perform_parse (line ++ (10 ∷ b'q' ∷ [])) ≡ (b'q' ∷ [], outcome line)
perform_parse-outcome_example = perform_parse-outcome line (b'q' ∷ []) refl refl

make_job-command_example :
    let words : List Process =
      record { pid = 0; args = split_white_space (b'l' ∷ b's' ∷ []); status = 0 } ∷ [] in
    ((make_job line (b'l' ∷ b's' ∷ b';' ∷ [])).processes ≡ words)
    × ((make_job line (b'l' ∷ b's' ∷ b';' ∷ [])).run_in_background ≡ false)
    × ((make_job line (b'l' ∷ b's' ∷ [])).processes ≡ words)
    × ((make_job line (b'l' ∷ b's' ∷ [])).run_in_background ≡ false)
make_job-command_example = make_job-command line (b'l' ∷ b's' ∷ []) b';' refl refl
