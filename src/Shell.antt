-- ===== src/Shell.antt =====
-- shell.c, shell.h: the shell's job control. The linked lists `all_jobs` and `all_background_jobs`
-- are lists, a position in one is the number of nodes before it, and the calls that reach other
-- processes (`kill`, `waitpid`, `tcsetpgrp`) are written down in the order in which they are made.
pub mod Background
pub mod BuiltIns
pub mod Pgids
pub mod Numbers
pub mod Kill
pub mod Resume
pub mod Login
pub mod Start
pub mod Started
pub mod Paths
pub mod FileCommands
pub mod Show
pub mod ShowFile
pub mod Launch
pub mod Redirect
pub mod Input
pub mod Child
pub mod CommandLine
pub mod Invariant
use file_system_project.Prelude.{
  ℕ, zero, suc, ◌+◌, Bool, true, false, Option, none, some, List, [], ◌∷◌, ◌++◌, ltb, ◌==◌,
  if◌then◌else◌, length, get_elem?, take,
}
use file_system_project.Prelude.Int.{ℤ, neg_ℕ}
use file_system_project.Text.{Text}
use file_system_project.Parser.{Job, no_redirection}

pub data JobStatus : Type 0 where
  running : JobStatus
  suspended : JobStatus
  killed : JobStatus

pub record BackgroundJob : Type 0 where
  pub pgid : ℕ
  pub status : JobStatus
  pub job_string : Text
  pub verbose : Bool

pub data Signal : Type 0 where
  sigkill : Signal
  sigterm : Signal
  sigcont : Signal

pub data Call : Type 0 where
  kill : ℤ → Signal → Call
  waitpid : ℕ → Call
  tcsetpgrp : ℕ → Call
  setpgid : ℕ → ℕ → Call

pub record Shell : Type 0 where
  pub all_jobs : List Job
  pub all_background_jobs : List BackgroundJob
  pub exit : Bool
  pub shell_pgid : ℕ
  pub calls : List Call

abbrev pub with_call : Shell → Call → Shell
with_call s c = record s { calls = s.calls ++ c ∷ [] }

-- The first node with this `pgid` is taken out.
unfoldable pub trim_background_process_list : ℕ → List BackgroundJob → List BackgroundJob
trim_background_process_list pid [] = []
trim_background_process_list pid (j ∷ js) =
    if j.pgid == pid then js else j ∷ trim_background_process_list pid js

unfoldable pub package_job : BackgroundJob → Job
package_job j = record {
  processes = [];
  pgid = j.pgid;
  job_string = [];
  full_job_string = j.job_string;
  status = elim j.status [ running ↦ 0 | suspended ↦ 1 | killed ↦ 2 ];
  pass = false;
  stdin = 0;
  stdout = 0;
  stderr = 0;
  run_in_background = false;
  run_with_redirection = no_redirection;
  suspend_this_job = false;
}

-- The background job with this `pgid` is marked; `none` where there is none.
unfoldable pub suspend_background : ℕ → List BackgroundJob → Option (List BackgroundJob)
suspend_background pid [] = none
suspend_background pid (j ∷ js) =
    if j.pgid == pid
    then some (record j { status = suspended; verbose = true } ∷ js)
    else elim (suspend_background pid js) [ none ↦ none | some js' ↦ some (j ∷ js') ]

unfoldable pub suspend_foreground : ℕ → List Job → List Job
suspend_foreground pid [] = []
suspend_foreground pid (j ∷ js) =
    if j.pgid == pid
    then record j { suspend_this_job = true } ∷ js
    else j ∷ suspend_foreground pid js

unfoldable pub job_suspend_helper : ℕ → Shell → Shell
unfolding suspend_background suspend_foreground
job_suspend_helper pid s = elim (suspend_background pid s.all_background_jobs) [
  | none ↦ record s { all_jobs = suspend_foreground pid s.all_jobs }
  | some jobs ↦ record s { all_background_jobs = jobs }
]

-- `si_code` of a SIGCHLD.
pub data ChildCode : Type 0 where
  exited : ChildCode
  was_killed : ChildCode
  dumped : ChildCode
  stopped : ChildCode
  trapped : ChildCode
  continued : ChildCode

abbrev pub trimmed : ℕ → Shell → Shell
trimmed pid s = record s {
  all_background_jobs = trim_background_process_list pid s.all_background_jobs;
}

-- The handler of SIGCHLD, for the child that the signal names.
unfoldable pub child_returning : ChildCode → ℕ → Shell → Shell
unfolding trim_background_process_list job_suspend_helper
child_returning exited pid s = trimmed pid s
child_returning was_killed pid s = trimmed pid s
child_returning dumped pid s = trimmed pid s
child_returning stopped pid s = job_suspend_helper pid s
child_returning trapped pid s = s
child_returning continued pid s = s

abbrev pub simple_background_job_setup : Job → JobStatus → BackgroundJob
simple_background_job_setup org status = record {
  pgid = org.pgid;
  status = status;
  job_string = org.full_job_string;
  verbose = true;
}

-- `next_background_job` of the node at a position.
abbrev pub next_position : List BackgroundJob → ℕ → Option ℕ
next_position jobs i = if ltb (i + 1) (length jobs) then some (i + 1) else none

-- The loop `while (next_job != NULL)` with its two pointers: the position of `cur_job` behind it.
-- The fuel is the number of tests of the condition; `none` means that it ran out.
unfoldable pub find_tail : List BackgroundJob → ℕ → ℕ → Option ℕ → Option ℕ
find_tail jobs zero cur next = none
find_tail jobs (suc fuel) cur next = elim next [
  | none ↦ some cur
  | some n ↦ find_tail jobs fuel n (next_position jobs cur)
]

-- `cur_job->next_background_job = copyOfJ`: what stood behind that node is lost. A loop that does not
-- end leaves no list; the fuel is two rounds for each node.
unfoldable pub append_job : List BackgroundJob → BackgroundJob → List BackgroundJob
unfolding find_tail
append_job [] copy = copy ∷ []
append_job (j ∷ js) copy =
    let jobs = j ∷ js in
    elim (find_tail jobs (length jobs + length jobs) 0 (next_position jobs 0)) [
      | none ↦ []
      | some cur ↦ take (cur + 1) jobs ++ copy ∷ []
    ]

-- `cont` is zero where the job is put on the list.
unfoldable pub put_job_in_background : Job → Bool → JobStatus → Shell → Shell
unfolding append_job
put_job_in_background j true status s = with_call s (kill (neg_ℕ j.pgid) sigcont)
put_job_in_background j false status s = record s {
  all_background_jobs = append_job s.all_background_jobs (simple_background_job_setup j status);
}

-- `put_job_in_background` of each job that a stop has marked, as `main` does after a command.
unfoldable pub suspend_marked : List Job → Shell → Shell
unfolding put_job_in_background
suspend_marked [] s = s
suspend_marked (j ∷ js) s =
    suspend_marked js (if j.suspend_this_job then put_job_in_background j false suspended s else s)
