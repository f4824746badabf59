-- ===== src/Tests/Shell.antt =====
-- The theorems on the shell's jobs at concrete lists.
use mathlib.Core.List.{map}
use file_system_project.Prelude.{none, ℕ, ◌≡◌, refl, true, false, some, [], ◌∷◌, ◌++◌, arith}
use file_system_project.Prelude.Int.{pos, neg_ℕ, minus_one}
use file_system_project.Text.{Text, strtok, text_eq}
use file_system_project.Numeral.Decimal.{digits_of}
use file_system_project.Parser.{Job, no_redirection, split_white_space}
use file_system_project.Shell.{
  Shell, BackgroundJob, running, suspended, sigterm, sigkill, kill, put_job_in_background,
  simple_background_job_setup, with_call,
}
use file_system_project.Shell.BuiltIns.{
  kill_builtin, foreground_builtin, background_builtin, exit_builtin,
}
use file_system_project.Shell.Background.{EndsAtLast, put_job_in_background-snoc}
use file_system_project.Shell.Kill.{OnlyListed, kill_builtin-number, kill_builtin-OnlyListed}
use file_system_project.Shell.Resume.{foregrounded, resumed, foreground_background-number}
use file_system_project.Shell.Pgids.{pgids, is_member, Distinct}
use file_system_project.Shell.Invariant.{World, all_killed, exit_builtin-nil}
use file_system_project.Shell.Launch.{main_round, index_of, built_in_tags}
use file_system_project.Shell.CommandLine.{answer_of, after_start, main_round-background}

abbrev listed : ℕ → BackgroundJob
listed p = record { pgid = p; status = suspended; job_string = b'a' ∷ []; verbose = false }

abbrev idle : Shell
idle = record { all_jobs = []; all_background_jobs = []; exit = false; shell_pgid = 4; calls = [] }

abbrev two_jobs : Shell
two_jobs = record idle { all_background_jobs = listed 11 ∷ listed 12 ∷ [] }

abbrev pub new_job : Job
new_job = record {
  processes = [];
  pgid = 13;
  job_string = [];
  full_job_string = b'b' ∷ [];
  status = 0;
  pass = false;
  stdin = 0;
  stdout = 1;
  stderr = 2;
  run_in_background = true;
  run_with_redirection = no_redirection;
  suspend_this_job = false;
}

put_job_in_background-snoc_example :
    EndsAtLast (listed 11 ∷ listed 12 ∷ [])
    × (put_job_in_background new_job false running two_jobs ≡ record two_jobs {
      all_background_jobs =
          (listed 11 ∷ listed 12 ∷ []) ++ simple_background_job_setup new_job running ∷ [];
    })
put_job_in_background-snoc_example = put_job_in_background-snoc new_job running two_jobs

kill_builtin-number_example :
    (kill_builtin ([] ∷ (b'%' ∷ digits_of 20 2) ∷ []) two_jobs
      ≡ some (with_call two_jobs (kill (pos 12) sigterm)))
    × (kill_builtin ([] ∷ (b'-' ∷ b'9' ∷ []) ∷ (b'%' ∷ digits_of 20 2) ∷ []) two_jobs
        ≡ some (with_call two_jobs (kill (pos 12) sigkill)))
kill_builtin-number_example = kill_builtin-number [] 2 two_jobs (omega arith)

kill_builtin-OnlyListed_example :
    OnlyListed two_jobs (kill_builtin ([] ∷ (b'%' ∷ b'1' ∷ []) ∷ []) two_jobs)
kill_builtin-OnlyListed_example = kill_builtin-OnlyListed ([] ∷ (b'%' ∷ b'1' ∷ []) ∷ []) two_jobs

foreground_background-number_example :
    (foreground_builtin ([] ∷ (b'%' ∷ digits_of 20 1) ∷ []) two_jobs
      ≡ foregrounded (some (listed 11)) two_jobs)
    × (background_builtin ([] ∷ (b'%' ∷ digits_of 20 1) ∷ []) two_jobs
        ≡ (resumed (some (listed 11)) two_jobs, false))
foreground_background-number_example = foreground_background-number [] 1 two_jobs (omega arith)

one_job : Shell
one_job = put_job_in_background new_job false running idle

-- One child is forked, and its job is put on the list.
abbrev start_world : World
start_world = record { shell = idle; living = []; launched = none }

abbrev one_world : World
one_world = record { shell = one_job; living = 13 ∷ []; launched = none }

listed_pgids :
    (q : ℕ)
    → is_member q (pgids two_jobs.all_background_jobs) ≡ true
    → is_member q (12 ∷ 5 ∷ 11 ∷ []) ≡ true
unfolding is_member pgids
listed_pgids q h = ground arith

two_jobs-Distinct : Distinct (pgids two_jobs.all_background_jobs)
unfolding is_member pgids
two_jobs-Distinct = (refl, (refl, tt))

exit_builtin-nil_example :
    ((exit_builtin two_jobs).exit ≡ true)
    × ((exit_builtin two_jobs).calls
        ≡ [] ++ map (λ p. kill (neg_ℕ p) sigkill) (pgids two_jobs.all_background_jobs))
    × ((all_killed (12 ∷ 5 ∷ 11 ∷ []) (exit_builtin two_jobs)).all_background_jobs ≡ [])
exit_builtin-nil_example =
    exit_builtin-nil (12 ∷ 5 ∷ 11 ∷ []) two_jobs two_jobs-Distinct listed_pgids

-- "vi x"
abbrev vi_x : Text
vi_x = b'v' ∷ b'i' ∷ 32 ∷ b'x' ∷ []

vi_x-words : split_white_space vi_x ≡ (b'v' ∷ b'i' ∷ []) ∷ (b'x' ∷ []) ∷ []
unfolding split_white_space strtok
vi_x-words = refl

vi_external : index_of (b'v' ∷ b'i' ∷ []) built_in_tags 0 ≡ minus_one
unfolding index_of text_eq
vi_external = refl

main_round-background_example :
    main_round (vi_x ++ (b'&' ∷ 10 ∷ [])) (answer_of 77 ∷ []) two_jobs
    ≡ some ([], after_start (vi_x ++ b'&' ∷ []) 77 two_jobs)
main_round-background_example =
    main_round-background vi_x [] (b'v' ∷ b'i' ∷ []) ((b'x' ∷ []) ∷ []) 77 two_jobs refl refl refl
      vi_x-words vi_external
