-- ===== src/Shell/Numbers.antt =====
-- The commands that name a background job by its number.
use mathlib.Core.List.{append-nil}
use file_system_project.Prelude.{
  sym, ◌⊎◌, Option-cases, ℕ, zero, suc, ◌+◌, ◌≤◌, ◌<◌, ◌≡◌, refl, ap, ◌∙◌, Option, none, some, List,
  [], ◌∷◌, arith, ltb, if◌then◌else◌, inl, inr, length, get_elem?,
}
use file_system_project.Prelude.Int.{ℤ, pos, negsuc}
use file_system_project.Text.{Text}
use file_system_project.Numeral.{parse_cmd, long_max}
use file_system_project.Numeral.Decimal.{decimal, parse_cmd-decimal}
use file_system_project.Shell.{Shell, BackgroundJob, Signal, kill, with_call}
use file_system_project.Shell.BuiltIns.{find_node, numbered_job, signal_numbered}

find_node-get_elem? :
    (jobs : List BackgroundJob) (node k : ℕ)
    → find_node jobs node (pos (node + 1 + k))
      ≡ (if ltb k (length jobs) then node + 1 + k else node + length jobs, get_elem? jobs k)
unfolding find_node
find_node-get_elem? [] node k = ground arith
find_node-get_elem? (j ∷ js) node zero = ground arith
find_node-get_elem? (j ∷ js) node (suc k) =
    let e : pos (node + 1 + suc k) ≡ pos (node + 1 + 1 + k) = ap pos (omega arith) in
    ground (arith, ap (find_node js (node + 1)) e, find_node-get_elem? js (node + 1) k)

find_node-negative :
    (jobs : List BackgroundJob) (node k : ℕ)
    → find_node jobs node (negsuc k) ≡ (node + length jobs, none)
unfolding find_node
find_node-negative [] node k = ground arith
find_node-negative (j ∷ js) node k = ground (arith, find_node-negative js (node + 1) k)

find_node-zero :
    (jobs : List BackgroundJob) (node : ℕ)
    → find_node jobs node (pos 0) ≡ (node + length jobs, none)
unfolding find_node
find_node-zero [] node = ground arith
find_node-zero (j ∷ js) node = ground (arith, find_node-zero js (node + 1))

-- The job of a number on a list: numbers begin at 1.
abbrev pub job_at : List BackgroundJob → ℤ → Option BackgroundJob
job_at jobs (pos zero) = none
job_at jobs (pos (suc k)) = get_elem? jobs k
job_at jobs (negsuc k) = none

get_elem?-cases :
    (jobs : List BackgroundJob) (k : ℕ)
    → ((k < length jobs) × ((j : BackgroundJob) × (get_elem? jobs k ≡ some j)))
      ⊎ ((length jobs ≤ k) × (get_elem? jobs k ≡ none))
get_elem?-cases [] k = inr (omega arith, refl)
get_elem?-cases (j ∷ js) zero = inl (omega arith, (j, refl))
get_elem?-cases (j ∷ js) (suc k) = elim (get_elem?-cases js k) [
  | inl (h, found) ↦ inl (omega arith, found)
  | inr (h, e) ↦ inr (omega arith, e)
]

pub find_node-job_at :
    (jobs : List BackgroundJob) (number : ℤ) → (find_node jobs 0 number).1 ≡ job_at jobs number
find_node-job_at jobs (pos zero) = ap (λ r. r.1) (find_node-zero jobs 0)
find_node-job_at jobs (pos (suc k)) =
    let e : pos (suc k) ≡ pos (0 + 1 + k) = ap pos (omega arith) in
    ap (λ n. (find_node jobs 0 n).1) e ∙ ap (λ r. r.1) (find_node-get_elem? jobs 0 k)
find_node-job_at jobs (negsuc k) = ap (λ r. r.1) (find_node-negative jobs 0 k)

pub numbered_job-job_at :
    (jobs : List BackgroundJob) (number : ℤ) → numbered_job jobs number ≡ some (job_at jobs number)
unfolding numbered_job
numbered_job-job_at jobs (pos zero) = rw (find_node-zero jobs 0) (ground arith)
numbered_job-job_at jobs (pos (suc k)) =
    let e : pos (suc k) ≡ pos (0 + 1 + k) = ap pos (omega arith) in
    let found = ap (find_node jobs 0) e ∙ find_node-get_elem? jobs 0 k in
    elim (get_elem?-cases jobs k) [
      | inl (h, (j, at)) ↦ ground (arith, found)
      | inr (h, at) ↦ ground (arith, found)
    ]
numbered_job-job_at jobs (negsuc k) = ground arith

abbrev pub signalled : Option BackgroundJob → Signal → Shell → Shell
signalled none signal s = s
signalled (some j) signal s = with_call s (kill (pos j.pgid) signal)

abbrev pub numbered : List BackgroundJob → Option ℤ → Option BackgroundJob
numbered jobs none = none
numbered jobs (some number) = job_at jobs number

pub signal_numbered-signalled :
    (text : Text) (signal : Signal) (s : Shell)
    → signal_numbered text signal s
      ≡ some (signalled (numbered s.all_background_jobs (parse_cmd text)) signal s)
unfolding signal_numbered
signal_numbered-signalled text signal s = elim (Option-cases (parse_cmd text)) [
  | inl invalid ↦ ground arith
  | inr (number, valid) ↦ ground (arith, numbered_job-job_at s.all_background_jobs number)
]

-- A list has fewer jobs than a number that is out of range asks for, so the number's parse decides.
pub parse_cmd-in_range : (n : ℕ) → n ≤ long_max → parse_cmd (decimal n) ≡ some (pos n)
parse_cmd-in_range n h =
    let whole = append-nil (decimal n) in
    ap parse_cmd (sym whole) ∙ parse_cmd-decimal n [] (omega arith) refl ∙ ground arith
