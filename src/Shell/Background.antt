-- ===== src/Shell/Background.antt =====
-- The list of background jobs: where a job is put, and what taking one out leaves.
use file_system_project.Prelude.{
  ℕ, zero, suc, ◌+◌, ◌≤◌, ◌<◌, ◌≡◌, refl, ap, ◌∙◌, false, none, some, List, [], ◌∷◌, ◌++◌, arith,
  ltb, lt→ltb, ltb→lt, Bool-cases, inl, inr, length, take,
}
use file_system_project.Shell.{
  BackgroundJob, JobStatus, Shell, find_tail, next_position, append_job, put_job_in_background,
  simple_background_job_setup,
}
use file_system_project.Parser.{Job}

find_tail-none :
    (jobs : List BackgroundJob) (fuel k : ℕ) → find_tail jobs (suc fuel) k none ≡ some k
unfolding find_tail
find_tail-none jobs fuel k = refl

at_end : (k n : ℕ) → k < n → ltb (k + 1) n ≡ false → k + 1 ≡ n
at_end k n h last = ground arith

-- Two rounds move both pointers on by one node.
find_tail-last :
    (jobs : List BackgroundJob) (fuel cur : ℕ)
    → cur + 1 < length jobs
    → length jobs + length jobs ≤ cur + cur + fuel + 1
    → (k : ℕ) × (find_tail jobs fuel cur (some (cur + 1)) ≡ some k) × (k + 1 ≡ length jobs)
unfolding find_tail
find_tail-last jobs zero cur h enough = absurd (omega arith)
find_tail-last jobs (suc zero) cur h enough = absurd (omega arith)
find_tail-last jobs (suc (suc zero)) cur h enough = absurd (omega arith)
find_tail-last jobs (suc (suc (suc fuel))) cur h enough =
    let here : next_position jobs cur ≡ some (cur + 1) =
      rw (lt→ltb (cur + 1) (length jobs) h) refl in
    elim (Bool-cases (ltb (cur + 1 + 1) (length jobs))) [
      | inl more ↦
          let next : next_position jobs (cur + 1) ≡ some (cur + 1 + 1) = rw more refl in
          let (k, e, last) =
            find_tail-last jobs (suc fuel) (cur + 1) (ltb→lt _ _ more) (omega arith) in
          (
            k,
            ap (λ o. find_tail jobs (suc (suc fuel)) (cur + 1) o) here
                ∙ ap (λ o. find_tail jobs (suc fuel) (cur + 1) o) next
                ∙ e,
            last,
          )
      | inr last ↦
          let next : next_position jobs (cur + 1) ≡ none = rw last refl in
          (
            cur + 1,
            ap (λ o. find_tail jobs (suc (suc fuel)) (cur + 1) o) here
                ∙ ap (λ o. find_tail jobs (suc fuel) (cur + 1) o) next
                ∙ find_tail-none jobs fuel (cur + 1),
            at_end (cur + 1) (length jobs) h last,
          )
    ]

-- That the loop with its two pointers, from the first node on, ends at the last one within two tests of
-- its condition for each node.
abbrev pub EndsAtLast : List BackgroundJob → Type 0
EndsAtLast [] = Unit {0}
EndsAtLast (j ∷ js) =
    let jobs = j ∷ js in
    (k : ℕ) × (find_tail jobs (length jobs + length jobs) 0 (next_position jobs 0) ≡ some k)
    × (k + 1 ≡ length jobs)

find_tail-EndsAtLast : (jobs : List BackgroundJob) → EndsAtLast jobs
find_tail-EndsAtLast [] = tt
find_tail-EndsAtLast (j ∷ []) = (0, find_tail-none (j ∷ []) 1 0, refl)
find_tail-EndsAtLast (j ∷ i ∷ js) =
    let jobs = j ∷ i ∷ js in
    let next : next_position jobs 0 ≡ some (0 + 1) =
      rw (lt→ltb (0 + 1) (length jobs) (omega arith)) refl in
    let (k, e, last) =
      find_tail-last jobs (length jobs + length jobs) 0 (omega arith) (omega arith) in
    (k, ap (λ o. find_tail jobs (length jobs + length jobs) 0 o) next ∙ e, last)

take-length : (jobs : List BackgroundJob) → take (length jobs) jobs ≡ jobs
take-length [] = refl
take-length (j ∷ js) = ap (λ l. j ∷ l) (take-length js)

pub append_job_lem :
    (jobs : List BackgroundJob) (copy : BackgroundJob) → append_job jobs copy ≡ jobs ++ copy ∷ []
unfolding append_job find_tail
append_job_lem [] copy = refl
append_job_lem (j ∷ js) copy =
    let (k, e, last) = find_tail-EndsAtLast (j ∷ js) in
    rw (append_job, e, last) (ap (λ l. l ++ copy ∷ []) (take-length (j ∷ js)))

pub put_job_in_background_lem :
    (j : Job) (status : JobStatus) (s : Shell)
    → put_job_in_background j false status s ≡ record s {
      all_background_jobs = s.all_background_jobs ++ simple_background_job_setup j status ∷ [];
    }
unfolding put_job_in_background
put_job_in_background_lem j status s =
    ap (λ l. record s { all_background_jobs = l })
      (append_job_lem s.all_background_jobs (simple_background_job_setup j status))

-- The loop of `put_job_in_background` with its two pointers, on a list that is not empty, ends, at the
-- last node, within two tests of its condition for each node. With no continuation the function puts
-- the job behind all background jobs, whatever they are, and leaves those and all else alone.
pub put_job_in_background-snoc :
    (j : Job) (status : JobStatus) (s : Shell)
    → EndsAtLast s.all_background_jobs
      × (put_job_in_background j false status s ≡ record s {
        all_background_jobs = s.all_background_jobs ++ simple_background_job_setup j status ∷ [];
      })
put_job_in_background-snoc j status s =
    (find_tail-EndsAtLast s.all_background_jobs, put_job_in_background_lem j status s)
