-- ===== src/Shell/Resume.antt =====
-- The commands fg and bg.
use mathlib.Core.List.{map}
use file_system_project.Prelude.{
  ℕ, zero, suc, ◌+◌, ◌≤◌, ◌≡◌, refl, ap, ◌∙◌, Bool, true, false, Option, none, some, List, [], ◌∷◌,
  ◌++◌, if◌then◌else◌, arith, ◌==◌, get_elem?,
}
use file_system_project.Prelude.Int.{pos, neg_ℕ}
use file_system_project.Text.{Text}
use file_system_project.Numeral.{long_max}
use file_system_project.Numeral.Decimal.{decimal}
use file_system_project.Shell.{Shell, BackgroundJob, tcsetpgrp, kill, waitpid, sigcont, running}
use file_system_project.Shell.BuiltIns.{
  after_percent, foreground_builtin, foreground_helper, background_builtin,
  background_built_in_helper, resume_numbered, mark_running,
}
use file_system_project.Shell.Numbers.{job_at, parse_cmd-in_range, find_node-job_at}

-- What `fg` does to a job: the terminal, a SIGCONT to its group, the wait, and the terminal back.
abbrev pub foregrounded : Option BackgroundJob → Shell → Shell × Bool
foregrounded none s = (s, false)
foregrounded (some j) s = (
  record s {
    calls =
        s.calls
        ++ tcsetpgrp j.pgid
          ∷ kill (neg_ℕ j.pgid) sigcont
          ∷ waitpid j.pgid
          ∷ tcsetpgrp s.shell_pgid
          ∷ [];
  },
  true,
)

-- What `bg` does to a job: a SIGCONT to its group, which is then marked as running.
abbrev pub resumed : Option BackgroundJob → Shell → Shell
resumed none s = s
resumed (some j) s = record s {
  calls = s.calls ++ kill (neg_ℕ j.pgid) sigcont ∷ [];
  all_background_jobs =
      map (λ k. if k.pgid == j.pgid then record k { status = running } else k)
        s.all_background_jobs;
}

mark_running-map :
    (pgid : ℕ) (jobs : List BackgroundJob)
    → mark_running pgid jobs
      ≡ map (λ k. if k.pgid == pgid then record k { status = running } else k) jobs
unfolding mark_running
mark_running-map pgid [] = refl
mark_running-map pgid (j ∷ js) =
    ap (λ l. (if j.pgid == pgid then record j { status = running } else j) ∷ l)
      (mark_running-map pgid js)

background_built_in_helper-resumed :
    (j : BackgroundJob) (s : Shell) → background_built_in_helper j s ≡ resumed (some j) s
unfolding background_built_in_helper
background_built_in_helper-resumed j s =
    ap
      (λ l. record s {
        calls = s.calls ++ kill (neg_ℕ j.pgid) sigcont ∷ [];
        all_background_jobs = l;
      })
      (mark_running-map j.pgid s.all_background_jobs)

found-foregrounded :
    (found : Option BackgroundJob) (s : Shell)
    → elim found [ none ↦ (s, false) | some j ↦ (foreground_helper j s, true) ]
      ≡ foregrounded found s
unfolding foreground_helper
found-foregrounded none s = refl
found-foregrounded (some j) s = refl

-- Behind the number the loop finds nothing.
resume_numbered-beyond :
    (jobs : List BackgroundJob) (node n : ℕ) (s : Shell)
    → n ≤ node
    → resume_numbered jobs node (pos n) s ≡ s
unfolding resume_numbered
resume_numbered-beyond [] node n s h = refl
resume_numbered-beyond (j ∷ js) node n s h =
    let other : (node + 1 == n) ≡ false = ground arith in
    rw (resume_numbered, other) (resume_numbered-beyond js (node + 1) n s (omega arith))

resume_numbered-get_elem? :
    (jobs : List BackgroundJob) (node k : ℕ) (s : Shell)
    → resume_numbered jobs node (pos (node + 1 + k)) s ≡ resumed (get_elem? jobs k) s
unfolding resume_numbered
resume_numbered-get_elem? [] node k s = refl
resume_numbered-get_elem? (j ∷ js) node zero s =
    let here : (node + 1 == node + 1 + 0) ≡ true = ground arith in
    rw (resume_numbered, here)
      (resume_numbered-beyond js (node + 2) (node + 1 + 0) (background_built_in_helper j s)
          (omega arith)
        ∙ background_built_in_helper-resumed j s)
resume_numbered-get_elem? (j ∷ js) node (suc k) s =
    let later : (node + 1 == node + 1 + suc k) ≡ false = ground arith in
    let e : node + 1 + suc k ≡ node + 1 + 1 + k = omega arith in
    rw (resume_numbered, later)
      (ap (λ n. resume_numbered js (node + 1) (pos n) s) e
        ∙ resume_numbered-get_elem? js (node + 1) k s)

resume_numbered-job_at :
    (jobs : List BackgroundJob) (n : ℕ) (s : Shell)
    → resume_numbered jobs 0 (pos n) s ≡ resumed (job_at jobs (pos n)) s
resume_numbered-job_at jobs zero s = resume_numbered-beyond jobs 0 0 s (omega arith)
resume_numbered-job_at jobs (suc k) s =
    let e : suc k ≡ 0 + 1 + k = omega arith in
    ap (λ n. resume_numbered jobs 0 (pos n) s) e ∙ resume_numbered-get_elem? jobs 0 k s

-- `fg %n` and `bg %n`, for n of at most LONG_MAX, take the n-th background job, counted from 1, and
-- do nothing if there is none. `fg` gives it the terminal, sends its group a SIGCONT, waits for it
-- and takes the terminal back, and returns TRUE; `bg` sends its group one SIGCONT and marks
-- the jobs of that group as running, and returns FALSE always.
pub foreground_background-number :
    (command : Text) (n : ℕ) (s : Shell)
    → n ≤ long_max
    → let target = job_at s.all_background_jobs (pos n) in
      let args = command ∷ (b'%' ∷ decimal n) ∷ [] in
      (foreground_builtin args s ≡ foregrounded target s)
      × (background_builtin args s ≡ (resumed target s, false))
unfolding foreground_builtin background_builtin after_percent
foreground_background-number command n s h =
    let number = parse_cmd-in_range n h in
    (
      ground (
        arith,
        number,
        find_node-job_at s.all_background_jobs (pos n),
        found-foregrounded (job_at s.all_background_jobs (pos n)) s,
      ),
      ground (arith, number, resume_numbered-job_at s.all_background_jobs n s),
    )
