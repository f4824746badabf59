-- ===== src/Shell/Kill.antt =====
-- The kill command.
use mathlib.Core.Path.{subst}
use file_system_project.Prelude.{
  sym, ◌⊎◌, Option-cases, ℕ, zero, suc, ◌≤◌, ◌≡◌, refl, ap, ◌∙◌, Option, none, some, List, [], ◌∷◌,
  Bool-cases, inl, inr, get_elem?,
}
use file_system_project.Prelude.Int.{ℤ, pos, negsuc}
use file_system_project.Text.{Text, text_eq}
use file_system_project.Numeral.{parse_cmd, long_max}
use file_system_project.Numeral.Decimal.{decimal}
use file_system_project.Shell.{Shell, BackgroundJob, Signal, sigkill, sigterm, kill, with_call}
use file_system_project.Shell.BuiltIns.{
  signal_numbered, kill_builtin, after_percent, kill_without_flag,
}
use file_system_project.Shell.Numbers.{
  job_at, signalled, numbered, signal_numbered-signalled, parse_cmd-in_range,
}

-- `kill %n`, for n of at most LONG_MAX, sends one SIGTERM to the process that the `pgid` of the
-- n-th background job names, counted from 1, and `kill -9 %n` one SIGKILL; both do nothing if there
-- is no n-th job.
pub kill_builtin-number :
    (command : Text) (n : ℕ) (s : Shell)
    → n ≤ long_max
    → let target = job_at s.all_background_jobs (pos n) in
      let argument = b'%' ∷ decimal n in
      (kill_builtin (command ∷ argument ∷ []) s ≡ some (signalled target sigterm s))
      × (kill_builtin (command ∷ (b'-' ∷ b'9' ∷ []) ∷ argument ∷ []) s
          ≡ some (signalled target sigkill s))
unfolding kill_builtin text_eq after_percent kill_without_flag
kill_builtin-number command n s h =
    let at = λ (signal : Signal).
      signal_numbered-signalled (decimal n) signal s
      ∙ ap (λ o. some (signalled (numbered s.all_background_jobs o) signal s))
          (parse_cmd-in_range n h) in
    (at sigterm, at sigkill)

-- What one call of `kill` may do: nothing, or one signal to a job on the list.
abbrev pub OnlyListed : Shell → Option Shell → Type 0
OnlyListed s r =
    (r ≡ some s)
    ⊎ ((k : ℕ) × (j : BackgroundJob) × (signal : Signal) × (get_elem? s.all_background_jobs k
          ≡ some j)
        × (r ≡ some (with_call s (kill (pos j.pgid) signal))))

job_at-OnlyListed :
    (s : Shell) (signal : Signal) (number : Option ℤ)
    → OnlyListed s (some (signalled (numbered s.all_background_jobs number) signal s))
job_at-OnlyListed s signal none = inl refl
job_at-OnlyListed s signal (some (pos zero)) = inl refl
job_at-OnlyListed s signal (some (negsuc k)) = inl refl
job_at-OnlyListed s signal (some (pos (suc k))) =
    elim (Option-cases (get_elem? s.all_background_jobs k)) [
      | inl e ↦ inl (ap (λ o. some (signalled o signal s)) e)
      | inr (j, e) ↦ inr (k, j, signal, e, ap (λ o. some (signalled o signal s)) e)
    ]

signal_numbered-OnlyListed :
    (text : Text) (signal : Signal) (s : Shell) → OnlyListed s (signal_numbered text signal s)
signal_numbered-OnlyListed text signal s =
    subst (OnlyListed s) (sym (signal_numbered-signalled text signal s))
      (job_at-OnlyListed s signal (parse_cmd text))

kill_without_flag-OnlyListed :
    (argument : Text) (s : Shell) → OnlyListed s (kill_without_flag argument s)
unfolding kill_without_flag
kill_without_flag-OnlyListed argument s = elim (Option-cases (after_percent argument)) [
  | inl e ↦ rw (e, kill_without_flag) (inl refl)
  | inr (text, e) ↦ rw (e, kill_without_flag) (signal_numbered-OnlyListed text sigterm s)
]

-- Whatever its arguments are, `kill` reads no NULL pointer, and either does nothing or makes one
-- call, a signal to the process that the `pgid` of a background job on the list names.
pub kill_builtin-OnlyListed : (args : List Text) (s : Shell) → OnlyListed s (kill_builtin args s)
unfolding kill_builtin
kill_builtin-OnlyListed [] s = inl refl
kill_builtin-OnlyListed (command ∷ []) s = inl refl
kill_builtin-OnlyListed (command ∷ argument ∷ []) s = kill_without_flag-OnlyListed argument s
kill_builtin-OnlyListed (command ∷ flag ∷ argument ∷ []) s =
    elim (Option-cases (after_percent argument)) [
      | inl e ↦ rw (e, kill_builtin) (kill_without_flag-OnlyListed flag s)
      | inr (text, e) ↦ elim (Bool-cases (text_eq flag (b'-' ∷ b'9' ∷ []))) [
        | inl is_flag ↦ rw (e, kill_builtin, is_flag) (signal_numbered-OnlyListed text sigkill s)
        | inr is_other ↦ rw (e, kill_builtin, is_other) (inl refl)
      ]
    ]
kill_builtin-OnlyListed (command ∷ flag ∷ argument ∷ more ∷ others) s = inl refl
