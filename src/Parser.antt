-- ===== src/Parser.antt =====
-- parser.c: a line of input becomes the list of jobs `all_jobs`. A string is the list of its
-- characters before the first 0, so that the delimiter "\0" is the end of the list.
pub mod Line
pub mod Tokens
pub mod Jobs
pub mod Command
pub mod Background
use file_system_project.Prelude.{
  ℕ, zero, suc, ◌+◌, Bool, true, false, not, ◌&&◌, ◌||◌, Option, none, some, List, [], ◌∷◌, ◌==◌,
  if◌then◌else◌, length,
}
use file_system_project.Text.{Text, c_string, strtok, text_eq}

abbrev pub is_white_space : ℕ → Bool
is_white_space c = c == b' ' || c == b',' || c == b'<'

-- The array of words, up to its NULL.
unfoldable pub split_white_space : Text → List Text
split_white_space = strtok is_white_space

-- What `strtok` leaves of its string: a 0 stands behind the first word.
unfoldable pub first_word : Text → Text
first_word [] = []
first_word (c ∷ cs) = if is_white_space c then [] else c ∷ first_word cs

unfoldable pub cut_at_word : Text → Text
unfolding first_word
cut_at_word [] = []
cut_at_word (c ∷ cs) = if is_white_space c then c ∷ cut_at_word cs else c ∷ first_word cs

abbrev pub is_a_deliminator : ℕ → Bool
is_a_deliminator c = c == b'&' || c == b';' || c == b'>' || c == b'<'

-- The token that a string begins with, and the position behind it.
unfoldable pub split_token : Text → Text × Text
split_token [] = ([], [])
split_token (c ∷ cs) =
    let (w, rest) = split_token cs in if is_a_deliminator c then (c ∷ [], cs) else (c ∷ w, rest)

-- At `t->pos`; `none` is NULL.
unfoldable pub get_next_token : Text → Option (Text × Text)
unfolding split_token
get_next_token [] = none
get_next_token (c ∷ cs) = some (split_token (c ∷ cs))

-- The last character; `none` where the code points at a "\0".
unfoldable pub last_element_of : Text → Option ℕ
last_element_of [] = none
last_element_of (c ∷ []) = some c
last_element_of (c ∷ d ∷ cs) = last_element_of (d ∷ cs)

abbrev pub is_last : ℕ → Text → Bool
is_last c s = elim (last_element_of s) [ none ↦ false | some d ↦ d == c ]

-- `s[strlen(s) - 1] = '\0'`
unfoldable pub without_last : Text → Text
without_last [] = []
without_last (c ∷ []) = []
without_last (c ∷ d ∷ cs) = c ∷ without_last (d ∷ cs)

unfoldable pub is_white_space_job : Text → Bool
is_white_space_job [] = true
is_white_space_job (c ∷ cs) = (c == b' ' || is_a_deliminator c) && is_white_space_job cs

pub data Redirection : Type 0 where
  apnd : Redirection
  overwrite : Redirection
  input : Redirection
  no_redirection : Redirection

abbrev pub after_greater : Text → Redirection
after_greater [] = overwrite
after_greater (c ∷ cs) = if c == b'>' then apnd else overwrite

unfoldable pub which_is_contained : Text → Redirection
which_is_contained [] = no_redirection
which_is_contained (c ∷ cs) =
    if c == b'<' then input else if c == b'>' then after_greater cs else which_is_contained cs

-- The line up to the newline or the end of the input, and what is left to read.
unfoldable pub read_command_line : Text → Text × Text
read_command_line [] = ([], [])
read_command_line (c ∷ cs) =
    let (line, rest) = read_command_line cs in if c == 10 then ([], cs) else (c ∷ line, rest)

pub record Process : Type 0 where
  pub pid : ℕ
  pub args : List Text
  pub status : ℕ

pub record Job : Type 0 where
  pub processes : List Process
  pub pgid : ℕ
  pub job_string : Text
  pub full_job_string : Text
  pub status : ℕ
  pub pass : Bool
  pub stdin : ℕ
  pub stdout : ℕ
  pub stderr : ℕ
  pub run_in_background : Bool
  pub run_with_redirection : Redirection
  pub suspend_this_job : Bool

-- The job string without the '&', ';' or '>' that ended the token.
unfoldable pub command_of : Text → Text
unfolding last_element_of without_last
command_of token =
    let s = if is_last b'&' token then without_last token else token in
    let s' = if is_last b';' s then without_last s else s in
    if is_last b'>' s' then without_last s' else s'

-- A job as both loops of `perform_parse` leave it.
unfoldable pub make_job : Text → Text → Job
unfolding command_of is_white_space_job which_is_contained split_white_space cut_at_word
    last_element_of
make_job line token = record {
  processes = record { pid = 0; args = split_white_space (command_of token); status = 0 } ∷ [];
  pgid = 0;
  job_string = cut_at_word (command_of token);
  full_job_string = token;
  status = 0;
  pass = is_white_space_job token;
  stdin = 0;
  stdout = 1;
  stderr = 2;
  run_in_background = is_last b'&' token;
  run_with_redirection = which_is_contained line;
  suspend_this_job = false;
}

abbrev pub is_greater : Text → Bool
is_greater token = text_eq token (b'>' ∷ [])

-- The first loop: `num_jobs`. The fuel is the number of calls of `get_next_token` at most.
unfoldable pub count_jobs : ℕ → Text → ℕ
unfolding get_next_token
count_jobs zero s = 0
count_jobs (suc fuel) s = elim (get_next_token s) [
  | none ↦ 0
  | some (token, rest) ↦ count_jobs fuel rest + (if is_greater token then 0 else 1)
]

-- The second loop: the jobs.
unfoldable pub make_jobs : ℕ → Text → Text → List Job
unfolding get_next_token make_job
make_jobs zero line s = []
make_jobs (suc fuel) line s = elim (get_next_token s) [
  | none ↦ []
  | some (token, rest) ↦
      let jobs = make_jobs fuel line rest in
      if is_greater token then jobs else make_job line token ∷ jobs
]

-- What `perform_parse` does: it returns `EXIT` and leaves `all_jobs` alone, it sets `all_jobs` and
-- returns the number of jobs, or it reads through a NULL pointer.
pub data Parsed : Type 0 where
  nothing_read : Parsed
  jobs_read : ℕ → List Job → Parsed
  null_read : Parsed

-- With no job but the zeroed first one the last loop reads `temp_job->next_job->next_job`.
abbrev pub parsed_jobs : ℕ → List Job → Parsed
parsed_jobs n [] = null_read
parsed_jobs n (j ∷ js) = jobs_read n (j ∷ js)

unfoldable pub parse_line : Text → Parsed
unfolding count_jobs make_jobs
parse_line [] = nothing_read
parse_line (c ∷ cs) =
    let line = c ∷ cs in
    let fuel = suc (length line) in parsed_jobs (count_jobs fuel line) (make_jobs fuel line line)

-- The input that is left, and the outcome.
unfoldable pub perform_parse : Text → Text × Parsed
unfolding read_command_line parse_line c_string
perform_parse stdin =
    let (line, rest) = read_command_line stdin in (rest, parse_line (c_string line))
