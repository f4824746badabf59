-- ===== src/Text.antt =====
-- C strings as lists of character codes, and the library calls on them that the code makes:
-- `strcmp`, `strcpy` into an array, and `strtok` over a whole string.
use file_system_project.Prelude.{
  ℕ, ◌+◌, Bool, true, false, ◌&&◌, ◌||◌, Option, none, some, List, [], ◌∷◌, ◌++◌, ◌==◌, ltb,
  if◌then◌else◌, length, drop,
}

abbrev pub Text : Type 0
Text = List ℕ

-- The string that a `char` array holds: what stands before its first 0.
unfoldable pub c_string : List ℕ → Text
c_string [] = []
c_string (c ∷ cs) = if c == 0 then [] else c ∷ c_string cs

-- `strcmp(s, t) == 0` for strings with no 0 in them.
unfoldable pub text_eq : Text → Text → Bool
text_eq [] [] = true
text_eq [] (c ∷ t) = false
text_eq (b ∷ s) [] = false
text_eq (b ∷ s) (c ∷ t) = b == c && text_eq s t

-- `strcpy` over an array of `char`s; `none` where the string and its 0 do not fit.
unfoldable pub strcpy : List ℕ → Text → Option (List ℕ)
strcpy array s =
    if ltb (length s) (length array) then some (s ++ 0 ∷ drop (length s + 1) array) else none

abbrev pub is_slash : ℕ → Bool
is_slash c = c == b'/'

-- The delimiters "/'" of f_opendir and f_remove.
abbrev pub is_slash_or_quote : ℕ → Bool
is_slash_or_quote c = c == b'/' || c == 39

abbrev pub cons_word : Text → List Text → List Text
cons_word [] ws = ws
cons_word (c ∷ w) ws = (c ∷ w) ∷ ws

-- The word that the text begins with, and the words behind it.
unfoldable pub words_of : (ℕ → Bool) → Text → Text × List Text
words_of is_delimiter [] = ([], [])
words_of is_delimiter (c ∷ cs) =
    let (w, ws) = words_of is_delimiter cs in
    if is_delimiter c then ([], cons_word w ws) else (c ∷ w, ws)

-- What `strtok` gives, call by call, until NULL.
unfoldable pub strtok : (ℕ → Bool) → Text → List Text
unfolding words_of
strtok is_delimiter s = let (w, ws) = words_of is_delimiter s in cons_word w ws

-- `path = strcat(path, "/"); path = strcat(path, token);` for each token.
unfoldable pub path_of : List Text → Text
path_of [] = []
path_of (t ∷ ts) = b'/' ∷ (t ++ path_of ts)

-- All tokens but the last, and the last; `none` where there is none.
unfoldable pub split_last {ℓ} : {A : Type ℓ} → List A → Option (List A × A)
split_last [] = none
split_last (t ∷ ts) = elim (split_last ts) [ none ↦ some ([], t) | some (us, u) ↦ some (t ∷ us, u) ]
