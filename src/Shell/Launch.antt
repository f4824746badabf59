-- ===== src/Shell/Launch.antt =====
-- shell.c: how a command line that has been parsed is run: built-in commands in the shell, others in
-- a child. What a redirection of the output does to the disk is Shell/Redirect.
use file_system_project.Prelude.{
  ℕ, ◌+◌, Bool, true, false, not, Option, none, some, List, [], ◌∷◌, ◌==◌, if◌then◌else◌, set, ◌-◌,
  ◌++◌, ltb, length, get_elem?, replicate,
}
use mathlib.Core.List.{map}
use mathlib.Core.Option
use file_system_project.Prelude.Int.{ℤ, pos, minus_one, ◌==ℤ◌}
use file_system_project.Text.{Text, text_eq}
use file_system_project.Parser.{
  Job, Process, apnd, overwrite, input, no_redirection, Parsed, nothing_read, jobs_read, null_read,
  perform_parse,
}
use file_system_project.Shell.{
  Shell, BackgroundJob, ChildCode, running, setpgid, waitpid, tcsetpgrp, with_call, child_returning,
  put_job_in_background, suspend_marked,
}
use file_system_project.Shell.BuiltIns.{
  exit_builtin, kill_builtin, background_builtin, foreground_builtin,
}

-- exit, kill, jobs, fg, bg, ls, chmod, mkdir, rmdir, cd, pwd, cat, more, rm, mount and unmount.
abbrev pub built_in_tags : List Text
built_in_tags =
    (b'e' ∷ b'x' ∷ b'i' ∷ b't' ∷ [])
    ∷ (b'k' ∷ b'i' ∷ b'l' ∷ b'l' ∷ [])
    ∷ (b'j' ∷ b'o' ∷ b'b' ∷ b's' ∷ [])
    ∷ (b'f' ∷ b'g' ∷ [])
    ∷ (b'b' ∷ b'g' ∷ [])
    ∷ (b'l' ∷ b's' ∷ [])
    ∷ (b'c' ∷ b'h' ∷ b'm' ∷ b'o' ∷ b'd' ∷ [])
    ∷ (b'm' ∷ b'k' ∷ b'd' ∷ b'i' ∷ b'r' ∷ [])
    ∷ (b'r' ∷ b'm' ∷ b'd' ∷ b'i' ∷ b'r' ∷ [])
    ∷ (b'c' ∷ b'd' ∷ [])
    ∷ (b'p' ∷ b'w' ∷ b'd' ∷ [])
    ∷ (b'c' ∷ b'a' ∷ b't' ∷ [])
    ∷ (b'm' ∷ b'o' ∷ b'r' ∷ b'e' ∷ [])
    ∷ (b'r' ∷ b'm' ∷ [])
    ∷ (b'm' ∷ b'o' ∷ b'u' ∷ b'n' ∷ b't' ∷ [])
    ∷ (b'u' ∷ b'n' ∷ b'm' ∷ b'o' ∷ b'u' ∷ b'n' ∷ b't' ∷ [])
    ∷ []

-- The index of a name among the tags from index i on; NOT_FOUND also for cat, which has index 11.
unfoldable pub index_of : Text → List Text → ℕ → ℤ
index_of name [] i = minus_one
index_of name (tag ∷ tags) i =
    if text_eq name tag then (if i == 11 then minus_one else pos i) else index_of name tags (i + 1)

-- `none` where `args[0]` is NULL.
unfoldable pub is_built_in_command : Process → Option ℤ
unfolding index_of
is_built_in_command p = elim p.args [
  | [] ↦ none
  | name ∷ args ↦ some (index_of name built_in_tags 0)
]

-- The commands on jobs. The others, from index 5 on, work on the mounted disk and leave the jobs
-- alone; `jobs` prints.
unfoldable pub execute_built_in_command : ℤ → List Text → Shell → Option Shell
unfolding exit_builtin kill_builtin background_builtin foreground_builtin
execute_built_in_command index args s =
    if index ==ℤ pos 0
    then some (exit_builtin s)
    else if index ==ℤ pos 1
    then kill_builtin args s
    else if index ==ℤ pos 3
    then some (foreground_builtin args s).0
    else if index ==ℤ pos 4
    then some (background_builtin args s).0
    else some s

-- The job's group, its processes as they are left, `isBuiltIn` with `none` while it is unset, and
-- the shell.
pub record Launched : Type 0 where
  pub pgid : ℕ
  pub processes : List Process
  pub is_built_in : Option ℤ
  pub shell : Shell

abbrev pub then_process : Process → Option Launched → Option Launched
then_process p none = none
then_process p (some l) = some (record l { processes = p ∷ l.processes })

-- The loop over a job's processes. `pids` are what `fork` gives, in order.
unfoldable pub launch_processes : List Process → List ℕ → ℕ → Option ℤ → Shell → Option Launched
launch_processes [] pids pgid is_built_in s =
    some (record { pgid = pgid; processes = []; is_built_in = is_built_in; shell = s })
launch_processes (p ∷ ps) pids pgid is_built_in s = elim (is_built_in_command p) [
  | none ↦ none
  | some index ↦ elim (index ==ℤ minus_one) [
    | true ↦ elim pids [
      | [] ↦ none
      | pid ∷ more ↦
          let group = if pgid == 0 then pid else pgid in
          then_process (record p { pid = pid })
            (launch_processes ps more group (some index) (with_call s (setpgid pid group)))
    ]
    | false ↦ elim (execute_built_in_command index p.args s) [
      | none ↦ none
      | some s' ↦ then_process p (launch_processes ps pids pgid (some index) s')
    ]
  ]
]

-- What reaches the shell while it waits for a job in the foreground.
unfoldable pub handle_reports : List (ChildCode × ℕ) → Shell → Shell
unfolding child_returning
handle_reports [] s = s
handle_reports ((code, pid) ∷ reports) s = handle_reports reports (child_returning code pid s)

unfoldable pub put_job_in_foreground : ℕ → List (ChildCode × ℕ) → Shell → Shell
unfolding handle_reports
put_job_in_foreground pgid reports s =
    let waited = handle_reports reports (with_call (with_call s (tcsetpgrp pgid)) (waitpid pgid)) in
    with_call waited (tcsetpgrp waited.shell_pgid)

-- What the system gives while one job is launched: the children's pids, and the reports of children
-- while the shell waits.
pub record Answer : Type 0 where
  pub pids : List ℕ
  pub reports : List (ChildCode × ℕ)

-- What `launchJob` does with the job at position k of `all_jobs` behind its loop; `none` where it
-- reads an `isBuiltIn` that is not set.
unfoldable pub after_launch : ℕ → Job → Bool → Answer → Launched → Option Shell
after_launch k j foreground answer l =
    let j' = record j { pgid = l.pgid; processes = l.processes } in
    let s = record l.shell { all_jobs = set l.shell.all_jobs k j' } in
    elim l.is_built_in [
      | none ↦ none
      | some index ↦
          if index ==ℤ minus_one
          then (if foreground
              then some (put_job_in_foreground l.pgid answer.reports s)
              else some (put_job_in_background j' false running s))
          else some s
    ]

-- `none` also where a NULL name is read.
unfoldable pub launch_job : ℕ → Job → Bool → Answer → Shell → Option Shell
launch_job k j foreground answer s = elim (launch_processes j.processes answer.pids j.pgid none s) [
  | none ↦ none
  | some l ↦ after_launch k j foreground answer l
]

-- The jobs from position k on, with an answer for each that is launched.
unfoldable pub run_jobs : ℕ → List Job → List Answer → Shell → Option Shell
run_jobs k [] answers s = some s
run_jobs k (j ∷ js) answers s = elim j.pass [
  | true ↦ run_jobs (k + 1) js answers s
  | false ↦ elim answers [
    | [] ↦ none
    | answer ∷ more ↦ elim (launch_job k j (not j.run_in_background) answer s) [
      | none ↦ none
      | some s' ↦ run_jobs (k + 1) js more s'
    ]
  ]
]

-- The updates are printed once.
unfoldable pub updates_printed : List BackgroundJob → List BackgroundJob
updates_printed [] = []
updates_printed (j ∷ js) = record j { verbose = false } ∷ updates_printed js

-- What `main` does when the jobs have run; then `all_jobs` is freed.
abbrev pub finished : Shell → Shell
finished s =
    let s' = suspend_marked s.all_jobs s in
    record s' { all_background_jobs = updates_printed s'.all_background_jobs; all_jobs = [] }

-- What `main` does behind the parser with jobs that have no redirection.
unfoldable pub run_command : List Job → List Answer → Shell → Option Shell
run_command [] answers s = some (record s { all_jobs = [] })
run_command (j ∷ js) answers s =
    elim (run_jobs 0 (j ∷ js) answers (record s { all_jobs = j ∷ js })) [
      | none ↦ none
      | some s' ↦ some (finished s')
    ]

-- With a redirection only the first job is run. `all` is `all_jobs`.
unfoldable pub run_first : Job → List Job → List Answer → Shell → Option Shell
run_first j all answers s = elim (run_jobs 0 (j ∷ []) answers (record s { all_jobs = all })) [
  | none ↦ none
  | some s' ↦ some (finished s')
]

-- `p->args[i] = j->first_process->args[0]` for each job, from position i on. The array has
-- BUFFER_SIZE elements, NULL behind the arguments.
unfoldable pub store_arguments : ℕ → List Job → List (Option Text) → Option (List (Option Text))
store_arguments i [] array = some array
store_arguments i (j ∷ js) array = elim j.processes [
  | [] ↦ none
  | p ∷ ps ↦
      if ltb i (length array)
      then store_arguments (i + 1) js (set array i (get_elem? p.args 0))
      else none
]

-- The arguments in an array, up to NULL.
unfoldable pub until_null : List (Option Text) → List Text
until_null [] = []
until_null (none ∷ array) = []
until_null (some a ∷ array) = a ∷ until_null array

abbrev pub buffer_size : ℕ
buffer_size = 4096

unfoldable pub argument_array : List Text → List (Option Text)
argument_array args = map some args ++ none ∷ replicate (buffer_size - (length args + 1)) none

unfoldable pub input_arguments : List Text → List Job → Option (List Text)
unfolding store_arguments until_null argument_array
input_arguments args jobs = Option.map until_null (store_arguments 0 jobs (argument_array args))

-- The first job with the first arguments of all jobs.
unfoldable pub with_input : Job → List Job → Option Job
unfolding input_arguments
with_input j js = elim j.processes [
  | [] ↦ none
  | p ∷ ps ↦
      Option.map (λ args. record j { processes = record p { args = args } ∷ ps })
        (input_arguments p.args (j ∷ js))
]

-- The redirection of the first job decides.
abbrev pub run_redirected : List Job → List Answer → Shell → Option Shell
run_redirected [] answers s = run_command [] answers s
run_redirected (j ∷ js) answers s = elim j.run_with_redirection [
  | no_redirection ↦ run_command (j ∷ js) answers s
  | apnd ↦ run_first j (j ∷ js) answers s
  | overwrite ↦ run_first j (j ∷ js) answers s
  | input ↦ elim (with_input j js) [ none ↦ none | some j' ↦ run_first j' (j' ∷ js) answers s ]
]

abbrev pub run_parsed : Parsed → List Answer → Shell → Option Shell
run_parsed nothing_read answers s = run_redirected s.all_jobs answers s
run_parsed (jobs_read n jobs) answers s = run_redirected jobs answers s
run_parsed null_read answers s = none

-- A round of the loop in `main`: the input that is left, and the shell.
unfoldable pub main_round : Text → List Answer → Shell → Option (Text × Shell)
main_round stdin answers s =
    let (rest, parsed) = perform_parse stdin in
    elim (run_parsed parsed answers s) [ none ↦ none | some s' ↦ some (rest, s') ]
