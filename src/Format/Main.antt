-- ===== src/Format/Main.antt =====
-- format.c: what `main` makes of its arguments.
use file_system_project.Prelude.{ℕ, Bool, Option, none, some, List, [], ◌∷◌, ◌==◌, if◌then◌else◌}
use file_system_project.Prelude.Int.{ℤ, pos}
use file_system_project.Text.{Text, strtok, text_eq}
use file_system_project.Numeral.{parse_cmd}

-- It prints the usage, does nothing, or writes and tests a disk file of a size in megabytes.
pub data Request : Type 0 where
  help : Request
  nothing : Request
  write_and_test : Text → ℤ → Request

abbrev pub is_space_character : ℕ → Bool
is_space_character c = c == b' '

abbrev pub is_hash : ℕ → Bool
is_hash c = c == b'#'

-- Behind the flag: the size stands behind a '#'. `none` where `strtoll` is given NULL.
unfoldable pub sized_request : List Text → Text → Option Request
sized_request [] file = none
sized_request (token ∷ tokens) file = elim (strtok is_hash token) [
  | [] ↦ none
  | size ∷ others ↦ elim (parse_cmd size) [
    | none ↦ some help
    | some mb ↦ some (write_and_test file mb)
  ]
]

-- `none` also where `strcmp` is given NULL.
unfoldable pub flag_request : List Text → Text → Option Request
unfolding text_eq sized_request
flag_request [] file = none
flag_request (flag ∷ tokens) file =
    if text_eq (b'-' ∷ b's' ∷ []) flag then sized_request tokens file else some nothing

-- The arguments, the program's name first.
unfoldable pub request : List Text → Option Request
unfolding flag_request
request [] = some help
request (program ∷ []) = some help
request (program ∷ file ∷ []) = some (write_and_test file (pos 1))
request (program ∷ flag ∷ file ∷ []) = flag_request (strtok is_space_character flag) file
request (program ∷ flag ∷ file ∷ more ∷ others) = some help
