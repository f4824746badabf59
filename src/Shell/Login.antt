-- ===== src/Shell/Login.antt =====
-- shell.c: the users and `login`.
use file_system_project.Prelude.{
  ℕ, zero, suc, Bool, not, ◌&&◌, Option, none, some, [], ◌∷◌, ◌==◌, if◌then◌else◌,
}
use file_system_project.Text.{Text, c_string, text_eq}
use file_system_project.Parser.{without_last}

pub record User : Type 0 where
  pub name : Text
  pub password : Text
  pub uid : ℕ
  pub absolute_path_home_directory : Text

abbrev pub super_user : User
super_user = record {
  name = b's' ∷ b'u' ∷ b'p' ∷ b'e' ∷ b'r' ∷ [];
  password = b's' ∷ b'u' ∷ b's' ∷ b'e' ∷ b'r' ∷ [];
  uid = 0;
  absolute_path_home_directory = b'/' ∷ [];
}

abbrev pub basic_user : User
basic_user = record {
  name = b'b' ∷ b'a' ∷ b's' ∷ b'i' ∷ b'c' ∷ [];
  password = b'b' ∷ b'u' ∷ b's' ∷ b'e' ∷ b'r' ∷ [];
  uid = 1;
  absolute_path_home_directory = b'/' ∷ [];
}

-- At most n characters, through the first newline; and the input behind them.
unfoldable pub fgets : ℕ → Text → Text × Text
fgets zero s = ([], s)
fgets (suc n) [] = ([], [])
fgets (suc n) (c ∷ cs) =
    let (line, rest) = fgets n cs in if c == 10 then (c ∷ [], cs) else (c ∷ line, rest)

-- `buffer[strlen(buffer)-1] = 0`; `none` where the string is empty, and this writes before the
-- buffer.
abbrev pub cut_answer : Text → Text → Option (Text × Text)
cut_answer [] rest = none
cut_answer (c ∷ cs) rest = some (without_last (c ∷ cs), rest)

-- `fgets(buffer, sizeof(buffer), stdin)`, where `buffer` is a pointer of 8 bytes, and the cut.
unfoldable pub read_answer : Text → Option (Text × Text)
unfolding fgets c_string without_last
read_answer stdin = let (line, rest) = fgets 7 stdin in cut_answer (c_string line) rest

pub data LoggedIn : Type 0 where
  logged_in : User → Text → LoggedIn
  still_asking : Text → LoggedIn
  bad_write : LoggedIn

abbrev pub is_name : Text → Bool
is_name s = not (not (text_eq super_user.name s) && not (text_eq basic_user.name s))

abbrev pub is_password : Text → Bool
is_password s = not (not (text_eq super_user.password s) && not (text_eq basic_user.password s))

-- Behind a valid name.
unfoldable pub ask_password : Text → LoggedIn
unfolding read_answer text_eq
ask_password stdin = elim (read_answer stdin) [
  | none ↦ bad_write
  | some (password, rest) ↦
      if is_password password
      then logged_in (if text_eq super_user.password password then super_user else basic_user) rest
      else still_asking rest
]

unfoldable pub login_round : Text → LoggedIn
unfolding read_answer text_eq ask_password
login_round stdin = elim (read_answer stdin) [
  | none ↦ bad_write
  | some (name, rest) ↦ if is_name name then ask_password rest else still_asking rest
]

abbrev pub ask_again : (Text → LoggedIn) → LoggedIn → LoggedIn
ask_again next (logged_in u rest) = logged_in u rest
ask_again next (still_asking rest) = next rest
ask_again next bad_write = bad_write

-- The fuel is the number of rounds; `still_asking` means that it ran out.
unfoldable pub login : ℕ → Text → LoggedIn
unfolding login_round
login zero stdin = still_asking stdin
login (suc fuel) stdin = ask_again (login fuel) (login_round stdin)
