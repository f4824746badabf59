-- ===== src/Shell/Pgids.antt =====
-- The `pgid`s of the background jobs, and what each operation does to them.
use file_system_project.Prelude.{
  ℕ, ◌+◌, ◌≢◌, ◌≡◌, refl, ap, ◌∙◌, Bool, true, false, ◌||◌, some, List, [], ◌∷◌, ◌++◌, arith, ◌==◌,
  Bool-cases, Option-cases, inl, inr,
}
use file_system_project.Prelude.Int.{ℤ, pos, ◌==ℤ◌}
use file_system_project.Text.{Text}
use file_system_project.Numeral.{parse_cmd}
use file_system_project.Shell.{
  BackgroundJob, Shell, trim_background_process_list, suspend_background, job_suspend_helper,
}
use file_system_project.Shell.BuiltIns.{
  mark_running, background_built_in_helper, resume_numbered, background_builtin, last_job,
  after_percent, foreground_builtin, foreground_helper,
}

unfoldable pub pgids : List BackgroundJob → List ℕ
pgids [] = []
pgids (j ∷ js) = j.pgid ∷ pgids js

unfoldable pub is_member : ℕ → List ℕ → Bool
is_member p [] = false
is_member p (q ∷ qs) = (q == p) || is_member p qs

-- No number stands twice on the list.
abbrev pub Distinct : List ℕ → Type 0
Distinct [] = Unit {0}
Distinct (p ∷ ps) = (is_member p ps ≡ false) × Distinct ps

pub is_member-snoc :
    (q p : ℕ) (ps : List ℕ) → is_member q (ps ++ p ∷ []) ≡ (is_member q ps || (p == q))
unfolding is_member
is_member-snoc q p [] = ground arith
is_member-snoc q p (r ∷ ps) = ground (arith, is_member-snoc q p ps)

pub Distinct-snoc :
    (p : ℕ) (ps : List ℕ) → is_member p ps ≡ false → Distinct ps → Distinct (ps ++ p ∷ [])
unfolding is_member
Distinct-snoc p [] h d = (refl, tt)
Distinct-snoc p (q ∷ ps) h (new, d) =
    (ground (arith, is_member-snoc q p ps), Distinct-snoc p ps (ground arith) d)

pub pgids-snoc :
    (js : List BackgroundJob) (j : BackgroundJob) → pgids (js ++ j ∷ []) ≡ pgids js ++ j.pgid ∷ []
unfolding pgids
pgids-snoc [] j = refl
pgids-snoc (k ∷ js) j = ap (λ l. k.pgid ∷ l) (pgids-snoc js j)

-- A `pgid` of what is left was on the list; any but the one taken out still is.
pub is_member-trim :
    (q p : ℕ) (js : List BackgroundJob)
    → is_member q (pgids (trim_background_process_list p js)) ≡ true
    → is_member q (pgids js) ≡ true
unfolding is_member pgids trim_background_process_list
is_member-trim q p [] h = h
is_member-trim q p (j ∷ js) h = ground (arith, is_member-trim q p js)

pub is_member-trim_ne :
    (q p : ℕ) (js : List BackgroundJob)
    → q ≢ p
    → is_member q (pgids (trim_background_process_list p js)) ≡ is_member q (pgids js)
unfolding is_member pgids trim_background_process_list
is_member-trim_ne q p [] h = refl
is_member-trim_ne q p (j ∷ js) h = ground (arith, is_member-trim_ne q p js)

pub Distinct-trim :
    (p : ℕ) (js : List BackgroundJob)
    → Distinct (pgids js)
    → Distinct (pgids (trim_background_process_list p js))
unfolding pgids trim_background_process_list
Distinct-trim p [] d = tt
Distinct-trim p (j ∷ js) (new, d) = elim (Bool-cases (j.pgid == p)) [
  | inl found ↦ rw found d
  | inr other ↦ rw other (
    elim (Bool-cases (is_member j.pgid (pgids (trim_background_process_list p js)))) [
      | inl still ↦ absurd (ground (arith, is_member-trim j.pgid p js))
      | inr gone ↦ gone
    ],
    Distinct-trim p js d,
  )
]

-- With distinct `pgid`s the one taken out is gone.
pub not-is_member-trim :
    (p : ℕ) (js : List BackgroundJob)
    → Distinct (pgids js)
    → is_member p (pgids (trim_background_process_list p js)) ≡ false
unfolding pgids trim_background_process_list is_member
not-is_member-trim p [] d = refl
not-is_member-trim p (j ∷ js) (new, d) = elim (Bool-cases (j.pgid == p)) [
  | inl found ↦
      let same : p ≡ j.pgid = ground arith in rw found (ap (λ q. is_member q (pgids js)) same ∙ new)
  | inr other ↦ rw other (ground (arith, not-is_member-trim p js d))
]

pub pgids-mark_running : (p : ℕ) (js : List BackgroundJob) → pgids (mark_running p js) ≡ pgids js
unfolding pgids mark_running
pgids-mark_running p [] = refl
pgids-mark_running p (j ∷ js) = ground (arith, pgids-mark_running p js)

pgids-suspend_background :
    (p : ℕ) (js : List BackgroundJob) {js' : List BackgroundJob}
    → suspend_background p js ≡ some js'
    → pgids js' ≡ pgids js
unfolding pgids suspend_background
pgids-suspend_background p [] e = absurd cc
pgids-suspend_background p (j ∷ js) e = elim (Option-cases (suspend_background p js)) [
  | inl nothing ↦ ground arith
  | inr (ks, found) ↦ ground (arith, pgids-suspend_background p js found)
]

pub pgids-job_suspend_helper :
    (p : ℕ) (s : Shell)
    → pgids (job_suspend_helper p s).all_background_jobs ≡ pgids s.all_background_jobs
unfolding job_suspend_helper
pgids-job_suspend_helper p s = elim (Option-cases (suspend_background p s.all_background_jobs)) [
  | inl nothing ↦ ground arith
  | inr (ks, found) ↦ ground (arith, pgids-suspend_background p s.all_background_jobs found)
]

pub pgids-resume_numbered :
    (js : List BackgroundJob) (node : ℕ) (number : ℤ) (s : Shell)
    → pgids (resume_numbered js node number s).all_background_jobs ≡ pgids s.all_background_jobs
unfolding resume_numbered background_built_in_helper
pgids-resume_numbered [] node number s = refl
pgids-resume_numbered (j ∷ js) node number s = elim (Bool-cases (pos (node + 1) ==ℤ number)) [
  | inl found ↦
      rw (resume_numbered, found)
        (pgids-resume_numbered js (node + 2) number (background_built_in_helper j s)
          ∙ pgids-mark_running j.pgid s.all_background_jobs)
  | inr other ↦ rw (resume_numbered, other) (pgids-resume_numbered js (node + 1) number s)
]

pub pgids-background_builtin :
    (args : List Text) (s : Shell)
    → pgids (background_builtin args s).0.all_background_jobs ≡ pgids s.all_background_jobs
unfolding background_builtin background_built_in_helper
pgids-background_builtin [] s = refl
pgids-background_builtin (command ∷ []) s = elim (Option-cases (last_job s.all_background_jobs)) [
  | inl nothing ↦ ground arith
  | inr (j, found) ↦ ground (arith, pgids-mark_running j.pgid s.all_background_jobs)
]
pgids-background_builtin (command ∷ argument ∷ []) s =
    elim (Option-cases (after_percent argument)) [
      | inl nothing ↦ ground arith
      | inr (text, found) ↦ elim (Option-cases (parse_cmd text)) [
        | inl invalid ↦ ground arith
        | inr (number, valid) ↦
            ground (arith, pgids-resume_numbered s.all_background_jobs 0 number s)
      ]
    ]
pgids-background_builtin (command ∷ argument ∷ more ∷ others) s = refl

pub pgids-foreground_builtin :
    (args : List Text) (s : Shell)
    → pgids (foreground_builtin args s).0.all_background_jobs ≡ pgids s.all_background_jobs
unfolding foreground_builtin foreground_helper
pgids-foreground_builtin [] s = refl
pgids-foreground_builtin (command ∷ []) s = ground arith
pgids-foreground_builtin (command ∷ argument ∷ []) s =
    elim (Option-cases (after_percent argument)) [
      | inl nothing ↦ ground arith
      | inr (text, found) ↦ elim (Option-cases (parse_cmd text)) [
        | inl invalid ↦ ground arith
        | inr (number, valid) ↦ ground arith
      ]
    ]
pgids-foreground_builtin (command ∷ argument ∷ more ∷ others) s = refl
