-- ===== src/Shell/CommandLine.antt =====
-- A command line with '&', from the input to the list of background jobs.
use file_system_project.Prelude.{
  ℕ, ◌≡◌, refl, ap, ◌∙◌, true, false, none, some, List, [], ◌∷◌, ◌++◌, arith, set,
}
use file_system_project.Prelude.Int.{minus_one}
use file_system_project.Text.{Text}
use file_system_project.Parser.{
  split_white_space, is_white_space_job, which_is_contained, no_redirection, make_job, jobs_read,
  Job, Process,
}
use file_system_project.Parser.Line.{has_no_newline}
use file_system_project.Parser.Jobs.{has_no_zero}
use file_system_project.Parser.Command.{is_plain, make_job-command}
use file_system_project.Shell.{
  Shell, setpgid, with_call, running, suspend_marked, put_job_in_background,
}
use file_system_project.Shell.Background.{put_job_in_background_lem}
use file_system_project.Shell.Launch.{
  built_in_tags, index_of, main_round, Answer, updates_printed, run_redirected, run_parsed,
  run_command, run_jobs, launch_job, after_launch, launch_processes, is_built_in_command,
}
use file_system_project.Parser.Background.{
  which_is_contained-plain, is_white_space_job-plain, parsed-background, no_words,
}

abbrev pub answer_of : ℕ → Answer
answer_of pid = record { pids = pid ∷ []; reports = [] }

-- The shell behind a command line that starts one child in the background.
abbrev pub after_start : Text → ℕ → Shell → Shell
after_start job_string pid s = record s {
  all_jobs = [];
  calls = s.calls ++ setpgid pid pid ∷ [];
  all_background_jobs = updates_printed (
      s.all_background_jobs
      ++ (record { pgid = pid; status = running; job_string = job_string; verbose = true }) ∷ []);
}

module _ (p : Process) (pid : ℕ) (external : is_built_in_command p ≡ some minus_one) where
  launch_processes-one :
      (s : Shell)
      → launch_processes (p ∷ []) (pid ∷ []) 0 none s
        ≡ some (record {
          pgid = pid;
          processes = record p { pid = pid } ∷ [];
          is_built_in = some minus_one;
          shell = with_call s (setpgid pid pid);
        })
  unfolding launch_processes
  launch_processes-one s = ground (arith, external)

  launch_job-background :
      (k : ℕ) (j : Job) (s : Shell)
      → j.processes ≡ p ∷ []
      → j.pgid ≡ 0
      → let j' = record j { pgid = pid; processes = record p { pid = pid } ∷ [] } in
        let s' = record (with_call s (setpgid pid pid)) { all_jobs = set s.all_jobs k j' } in
        launch_job k j false (answer_of pid) s ≡ some (put_job_in_background j' false running s')
  unfolding launch_job after_launch
  launch_job-background k j s e z =
      let ran : launch_processes j.processes (pid ∷ []) j.pgid none s
          ≡ some (record {
            pgid = pid;
            processes = record p { pid = pid } ∷ [];
            is_built_in = some minus_one;
            shell = with_call s (setpgid pid pid);
          }) =
        ap (λ ps. launch_processes ps (pid ∷ []) j.pgid none s) e
        ∙ ap (λ g. launch_processes (p ∷ []) (pid ∷ []) g none s) z
        ∙ launch_processes-one s in
      ground (arith, ran)

  run_command-background :
      (j : Job) (s : Shell)
      → j.processes ≡ p ∷ []
      → j.pgid ≡ 0
      → j.pass ≡ false
      → j.run_in_background ≡ true
      → j.suspend_this_job ≡ false
      → run_command (j ∷ []) (answer_of pid ∷ []) s ≡ some (after_start j.full_job_string pid s)
  unfolding run_command run_jobs suspend_marked
  run_command-background j s e z run back on =
      let s' = record s { all_jobs = j ∷ [] } in
      let j' = record j { pgid = pid; processes = record p { pid = pid } ∷ [] } in
      let s'' = record (with_call s' (setpgid pid pid)) { all_jobs = j' ∷ [] } in
      ground (arith, launch_job-background 0 j s' e z, put_job_in_background_lem j' running s'')

run_redirected-one :
    (j : Job) (answers : List Answer) (s : Shell)
    → j.run_with_redirection ≡ no_redirection
    → run_redirected (j ∷ []) answers s ≡ run_command (j ∷ []) answers s
run_redirected-one j answers s h = ground (arith, h)

background_job_runs :
    (line w name : Text) (args : List Text) (pid : ℕ) (s : Shell)
    → line ≡ w ++ b'&' ∷ []
    → is_plain w ≡ true
    → split_white_space w ≡ name ∷ args
    → index_of name built_in_tags 0 ≡ minus_one
    → run_parsed (jobs_read 1 (make_job line line ∷ [])) (answer_of pid ∷ []) s
      ≡ some (after_start line pid s)
unfolding make_job is_built_in_command
background_job_runs line w name args pid s e h words external =
    let p : Process = record { pid = 0; args = name ∷ args; status = 0 } in
    let one_process : List Text → List Process =
      λ ws. record { pid = 0; args = ws; status = 0 } ∷ [] in
    let command = make_job-command line w b'&' h refl in
    let j = make_job line line in
    run_redirected-one j (answer_of pid ∷ []) s
      (ap which_is_contained e ∙ which_is_contained-plain w h)
    ∙ run_command-background p pid (ap some external) j s
        (ap (λ t. (make_job line t).processes) e ∙ command.0 ∙ ap one_process words) refl
        (ap is_white_space_job e ∙ is_white_space_job-plain w name args h words)
        (ap (λ t. (make_job line t).run_in_background) e ∙ command.1) refl

-- A round of `main` on the line "w&", where w has a first word that no built-in command has and no
-- delimiter, 0 or newline in it: it starts one child, puts it in a group of its own and at the end
-- of the background jobs, as running and under the whole line, and prints every update; the input
-- behind the line is left, and no job in the foreground.
pub main_round-background :
    (w rest name : Text) (args : List Text) (pid : ℕ) (s : Shell)
    → is_plain w ≡ true
    → has_no_newline w ≡ true
    → has_no_zero w ≡ true
    → split_white_space w ≡ name ∷ args
    → index_of name built_in_tags 0 ≡ minus_one
    → main_round (w ++ (b'&' ∷ 10 ∷ rest)) (answer_of pid ∷ []) s
      ≡ some (rest, after_start (w ++ b'&' ∷ []) pid s)
unfolding main_round
main_round-background [] rest name args pid s h nl nz e external = absurd (no_words name args e)
main_round-background (a ∷ w) rest name args pid s h nl nz e external = ground (
  arith,
  parsed-background a w rest h nl nz,
  background_job_runs (a ∷ (w ++ b'&' ∷ [])) (a ∷ w) name args pid s refl h e external,
)
