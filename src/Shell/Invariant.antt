-- ===== src/Shell/Invariant.antt =====
-- The shell between commands: its steps, and that no `pgid` ever stands on its list twice.
use mathlib.Core.List.{map}
use mathlib.Core.Path.{subst}
use file_system_project.Prelude.{
  ℕ, ◌≡◌, refl, ap, sym, Bool, true, false, Option, none, some, if◌then◌else◌, List, [], ◌∷◌, ◌++◌,
  arith, inl, inr, Bool-cases, ◌==◌, ◌||◌,
}
use file_system_project.Prelude.Int.{neg_ℕ}
use file_system_project.Text.{Text}
use file_system_project.Parser.{Job}
use file_system_project.Shell.{
  Shell, BackgroundJob, kill, sigkill, JobStatus, ChildCode, exited, was_killed, dumped, stopped,
  trapped, continued, child_returning, put_job_in_background,
}
use file_system_project.Shell.BuiltIns.{
  exit_builtin, kill_builtin, background_builtin, foreground_builtin, kill_calls,
}
use file_system_project.Shell.Pgids.{
  pgids, is_member, Distinct, Distinct-trim, not-is_member-trim, is_member-trim,
  pgids-job_suspend_helper,
}

-- The shell and its children: `living` are those that `fork` has made and no report has taken away, and
-- `launched` is the one that leads the last job, while that job is not on the list.
pub record World : Type 0 where
  pub shell : Shell
  pub living : List ℕ
  pub launched : Option ℕ

unfoldable pub take_out : ℕ → List ℕ → List ℕ
take_out p [] = []
take_out p (q ∷ qs) = if q == p then take_out p qs else q ∷ take_out p qs

abbrev pub forget : ℕ → Option ℕ → Option ℕ
forget p none = none
forget p (some q) = if q == p then none else some q

-- The child is gone with these reports.
abbrev pub ends : ChildCode → Bool
ends exited = true
ends was_killed = true
ends dumped = true
ends stopped = false
ends trapped = false
ends continued = false

abbrev pub reported : ChildCode → ℕ → World → World
reported code pid w = record {
  shell = child_returning code pid w.shell;
  living = if ends code then take_out pid w.living else w.living;
  launched = if ends code then forget pid w.launched else w.launched;
}

-- A child is forked, to lead a job or to join one: `fork` gives a number that none of the living
-- children has. The job that was launched last is put on the list. A child reports; or a command
-- runs. The handler of SIGCHLD is taken to run between the other steps; `launchJob` and `bg` block
-- that signal while they change the list.
pub data Step (v w : World) : Type 0 where
  leads :
      (pid : ℕ)
      → is_member pid v.living ≡ false
      → w ≡ record v { living = pid ∷ v.living; launched = some pid }
      → Step v w
  joins :
      (pid : ℕ)
      → is_member pid v.living ≡ false
      → w ≡ record v { living = pid ∷ v.living }
      → Step v w
  background :
      (j : Job) (status : JobStatus)
      → v.launched ≡ some j.pgid
      → w ≡ record v { shell = put_job_in_background j false status v.shell; launched = none }
      → Step v w
  child : (code : ChildCode) (pid : ℕ) → w ≡ reported code pid v → Step v w
  kills :
      (args : List Text) (t : Shell)
      → kill_builtin args v.shell ≡ some t
      → w ≡ record v { shell = t }
      → Step v w
  resumes :
      (args : List Text) → w ≡ record v { shell = (background_builtin args v.shell).0 } → Step v w
  foregrounds :
      (args : List Text) → w ≡ record v { shell = (foreground_builtin args v.shell).0 } → Step v w
  exits : w ≡ record v { shell = exit_builtin v.shell } → Step v w

pub data Reach (v : World) : World → Type 0 where
  here : Reach v v
  next : {w x : World} → Reach v w → Step w x → Reach v x

abbrev pub HasDistinct : Shell → Type 0
HasDistinct s = Distinct (pgids s.all_background_jobs)

child-Distinct :
    (code : ChildCode) (pid : ℕ) (s : Shell)
    → HasDistinct s
    → HasDistinct (child_returning code pid s)
unfolding child_returning
child-Distinct exited pid s d = Distinct-trim pid s.all_background_jobs d
child-Distinct was_killed pid s d = Distinct-trim pid s.all_background_jobs d
child-Distinct dumped pid s d = Distinct-trim pid s.all_background_jobs d
child-Distinct stopped pid s d = subst Distinct (sym (pgids-job_suspend_helper pid s)) d
child-Distinct trapped pid s d = d
child-Distinct continued pid s d = d

-- The groups on the list are distinct and of living children, and so is that of the launched job,
-- which is not on the list.
record IsSound (w : World) : Type 0 where
  distinct : Distinct (pgids w.shell.all_background_jobs)
  listed :
      (q : ℕ) → is_member q (pgids w.shell.all_background_jobs) ≡ true → is_member q w.living ≡ true
  leader :
      (p : ℕ)
      → w.launched ≡ some p
      → (is_member p w.living ≡ true) × (is_member p (pgids w.shell.all_background_jobs) ≡ false)

or_right : (a b : Bool) → a ≡ false → (a || b) ≡ true → b ≡ true
or_right a b e h = ground arith

-- The children that `exit` has sent a SIGKILL report, one by one.
unfoldable pub all_killed : List ℕ → Shell → Shell
all_killed [] s = s
all_killed (p ∷ ps) s = all_killed ps (child_returning was_killed p s)

no_member-nil :
    (js : List BackgroundJob)
    → ((q : ℕ) → is_member q (pgids js) ≡ true → is_member q [] ≡ true)
    → js ≡ []
unfolding pgids is_member
no_member-nil [] h = refl
no_member-nil (j ∷ js) h = absurd (ground (arith, h j.pgid))

all_killed-nil :
    (ps : List ℕ) (s : Shell)
    → HasDistinct s
    → ((q : ℕ) → is_member q (pgids s.all_background_jobs) ≡ true → is_member q ps ≡ true)
    → (all_killed ps s).all_background_jobs ≡ []
unfolding all_killed child_returning is_member
all_killed-nil [] s d h = no_member-nil s.all_background_jobs h
all_killed-nil (p ∷ ps) s d h =
    all_killed-nil ps (child_returning was_killed p s) (child-Distinct was_killed p s d) rest
  where
    rest :
        (q : ℕ)
        → is_member q (pgids (child_returning was_killed p s).all_background_jobs) ≡ true
        → is_member q ps ≡ true
    rest q m = elim (Bool-cases (p == q)) [
      | inl same ↦
          let e : q ≡ p = ground arith in
          absurd (ground (arith, rw e at m, not-is_member-trim p s.all_background_jobs d))
      | inr other ↦
          or_right (p == q) (is_member q ps) other
            (h q (is_member-trim q p s.all_background_jobs m))
    ]

kill_calls-pgids :
    (js : List BackgroundJob) → kill_calls js ≡ map (λ p. kill (neg_ℕ p) sigkill) (pgids js)
unfolding kill_calls pgids
kill_calls-pgids [] = refl
kill_calls-pgids (j ∷ js) = ap (λ l. kill (neg_ℕ j.pgid) sigkill ∷ l) (kill_calls-pgids js)

-- `exit` on a list with distinct `pgid`s ends the shell's loop and sends one SIGKILL to the group of
-- each background job, in order. If then a child of each of those groups reports that it was killed,
-- in any order, and perhaps others do, the list is empty.
pub exit_builtin-nil :
    (ps : List ℕ) (s : Shell)
    → Distinct (pgids s.all_background_jobs)
    → ((q : ℕ) → is_member q (pgids s.all_background_jobs) ≡ true → is_member q ps ≡ true)
    → let s' = exit_builtin s in
      (s'.exit ≡ true)
      × (s'.calls ≡ s.calls ++ map (λ p. kill (neg_ℕ p) sigkill) (pgids s.all_background_jobs))
      × ((all_killed ps s').all_background_jobs ≡ [])
unfolding exit_builtin
exit_builtin-nil ps s d h = (
  refl,
  ap (λ l. s.calls ++ l) (kill_calls-pgids s.all_background_jobs),
  all_killed-nil ps (exit_builtin s) d h,
)
