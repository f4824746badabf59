-- ===== src/Shell/BuiltIns.antt =====
-- shell.c: the built-in commands that act on background jobs: exit, kill, jobs, bg and fg.
use file_system_project.Prelude.{
  ℕ, ◌+◌, Bool, true, false, ◌||◌, Option, none, some, List, [], ◌∷◌, ◌++◌, ◌==◌, if◌then◌else◌,
}
use file_system_project.Prelude.Int.{ℤ, pos, neg_ℕ, ltb_ℤ, leb_ℤ, ◌==ℤ◌}
use file_system_project.Text.{Text, text_eq}
use file_system_project.Numeral.{parse_cmd}
use file_system_project.Shell.{
  Shell, BackgroundJob, JobStatus, running, Signal, sigkill, sigterm, sigcont, Call, kill, waitpid,
  tcsetpgrp, with_call,
}

-- `kill(-pgid, SIGKILL)` for each background job.
unfoldable pub kill_calls : List BackgroundJob → List Call
kill_calls [] = []
kill_calls (j ∷ js) = kill (neg_ℕ j.pgid) sigkill ∷ kill_calls js

unfoldable pub exit_builtin : Shell → Shell
unfolding kill_calls
exit_builtin s = record s { exit = true; calls = s.calls ++ kill_calls s.all_background_jobs }

-- The text behind the '%' of an argument.
unfoldable pub after_percent : Text → Option Text
after_percent [] = none
after_percent (c ∷ cs) = if c == b'%' then some cs else none

-- `currentNode` and `currentJob` behind the search for a node by its number, from `node` on.
unfoldable pub find_node : List BackgroundJob → ℕ → ℤ → ℕ × Option BackgroundJob
find_node [] node number = (node, none)
find_node (j ∷ js) node number =
    if pos (node + 1) ==ℤ number then (node + 1, some j) else find_node js (node + 1) number

-- The job of a number; `none` where a NULL `currentJob` is read.
unfoldable pub numbered_job : List BackgroundJob → ℤ → Option (Option BackgroundJob)
unfolding find_node
numbered_job jobs number =
    let (node, found) = find_node jobs 0 number in
    if ltb_ℤ (pos node) number || leb_ℤ number (pos 0)
    then some none
    else elim found [ none ↦ none | some j ↦ some (some j) ]

unfoldable pub signal_numbered : Text → Signal → Shell → Option Shell
unfolding numbered_job
signal_numbered text signal s = elim (parse_cmd text) [
  | none ↦ some s
  | some number ↦ elim (numbered_job s.all_background_jobs number) [
    | none ↦ none
    | some none ↦ some s
    | some (some j) ↦ some (with_call s (kill (pos j.pgid) signal))
  ]
]

unfoldable pub kill_without_flag : Text → Shell → Option Shell
unfolding after_percent signal_numbered
kill_without_flag argument s = elim (after_percent argument) [
  | none ↦ some s
  | some text ↦ signal_numbered text sigterm s
]

-- It returns FALSE always.
unfoldable pub kill_builtin : List Text → Shell → Option Shell
unfolding kill_without_flag after_percent signal_numbered
kill_builtin [] s = some s
kill_builtin (command ∷ []) s = some s
kill_builtin (command ∷ argument ∷ []) s = kill_without_flag argument s
kill_builtin (command ∷ flag ∷ argument ∷ []) s = elim (after_percent argument) [
  | none ↦ kill_without_flag flag s
  | some text ↦ if text_eq flag (b'-' ∷ b'9' ∷ []) then signal_numbered text sigkill s else some s
]
kill_builtin (command ∷ flag ∷ argument ∷ more ∷ others) s = some s

-- The lines that `jobs` prints: the number, the `pgid`, the status and the job string.
unfoldable pub rows : ℕ → List BackgroundJob → List (ℕ × ℕ × JobStatus × Text)
rows job_id [] = []
rows job_id (j ∷ js) = (job_id, j.pgid, j.status, j.job_string) ∷ rows (job_id + 1) js

-- EXIT_SUCCESS, or EXIT_FAILURE where there is no job.
unfoldable pub jobs_builtin : Shell → List (ℕ × ℕ × JobStatus × Text) × ℕ
unfolding rows
jobs_builtin s = (rows 1 s.all_background_jobs, elim s.all_background_jobs [ [] ↦ 1 | j ∷ js ↦ 0 ])

-- Every job with this `pgid` is running.
unfoldable pub mark_running : ℕ → List BackgroundJob → List BackgroundJob
mark_running pgid [] = []
mark_running pgid (j ∷ js) =
    (if j.pgid == pgid then record j { status = running } else j) ∷ mark_running pgid js

unfoldable pub background_built_in_helper : BackgroundJob → Shell → Shell
unfolding mark_running
background_built_in_helper bj s = record (with_call s (kill (neg_ℕ bj.pgid) sigcont)) {
  all_background_jobs = mark_running bj.pgid s.all_background_jobs;
}

unfoldable pub last_job : List BackgroundJob → Option BackgroundJob
last_job [] = none
last_job (j ∷ []) = some j
last_job (j ∷ k ∷ js) = last_job (k ∷ js)

-- The loop of `bg`. The node that is found is looked at a second time, with the next number, and
-- then left; only its `pgid` is read.
unfoldable pub resume_numbered : List BackgroundJob → ℕ → ℤ → Shell → Shell
unfolding background_built_in_helper
resume_numbered [] node number s = s
resume_numbered (j ∷ js) node number s =
    let found = pos (node + 1) ==ℤ number in
    resume_numbered js (if found then node + 2 else node + 1) number
      (if found then background_built_in_helper j s else s)

-- The result is TRUE or FALSE.
unfoldable pub background_builtin : List Text → Shell → Shell × Bool
unfolding last_job background_built_in_helper resume_numbered after_percent
background_builtin [] s = (s, false)
background_builtin (command ∷ []) s = elim (last_job s.all_background_jobs) [
  | none ↦ (s, false)
  | some j ↦ (background_built_in_helper j s, true)
]
background_builtin (command ∷ argument ∷ []) s = elim (after_percent argument) [
  | none ↦ (s, false)
  | some text ↦ elim (parse_cmd text) [
    | none ↦ (s, false)
    | some number ↦ (resume_numbered s.all_background_jobs 0 number s, false)
  ]
]
background_builtin (command ∷ argument ∷ more ∷ others) s = (s, false)

-- The terminal's modes are left out.
unfoldable pub foreground_helper : BackgroundJob → Shell → Shell
foreground_helper bj s = record s {
  calls =
      s.calls
      ++ tcsetpgrp bj.pgid
        ∷ kill (neg_ℕ bj.pgid) sigcont
        ∷ waitpid bj.pgid
        ∷ tcsetpgrp s.shell_pgid
        ∷ [];
}

unfoldable pub foreground_builtin : List Text → Shell → Shell × Bool
unfolding last_job foreground_helper find_node after_percent
foreground_builtin [] s = (s, false)
foreground_builtin (command ∷ []) s = elim (last_job s.all_background_jobs) [
  | none ↦ (s, false)
  | some j ↦ (foreground_helper j s, true)
]
foreground_builtin (command ∷ argument ∷ []) s = elim (after_percent argument) [
  | none ↦ (s, false)
  | some text ↦ elim (parse_cmd text) [
    | none ↦ (s, false)
    | some number ↦ elim (find_node s.all_background_jobs 0 number).1 [
      | none ↦ (s, false)
      | some j ↦ (foreground_helper j s, true)
    ]
  ]
]
foreground_builtin (command ∷ argument ∷ more ∷ others) s = (s, false)

unfoldable pub get_background_from_pgid : ℕ → List BackgroundJob → Option BackgroundJob
get_background_from_pgid pgid [] = none
get_background_from_pgid pgid (j ∷ js) =
    if j.pgid == pgid then some j else get_background_from_pgid pgid js
