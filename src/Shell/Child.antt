-- ===== src/Shell/Child.antt =====
-- shell.c: the calls that a child makes before its program runs (launchProcess), and those that the
-- shell makes when it starts (initializeShell). `succeeds` says which of them succeed.
use file_system_project.Prelude.{
  ℕ, zero, suc, Bool, true, false, ◌||◌, Option, none, some, List, [], ◌∷◌, ◌++◌, ◌==◌,
  if◌then◌else◌,
}
use file_system_project.Text.{Text, text_eq}

pub data HandledSignal : Type 0 where
  sigint sigterm sigquit sigttin sigttou sigtstp sigchld : HandledSignal

pub data SetupCall : Type 0 where
  set_group : ℕ → ℕ → SetupCall
  take_terminal : ℕ → SetupCall
  default_action : HandledSignal → SetupCall
  ignore_signal : HandledSignal → SetupCall
  handle_child : SetupCall
  stop_group : ℕ → SetupCall
  run_cat : List Text → SetupCall
  run_program : Text → List Text → SetupCall

-- The calls up to the first that fails, which is the last: the process exits then, and
-- initializeShell returns where it is the handler that was refused.
unfoldable pub attempted : (SetupCall → Bool) → List SetupCall → List SetupCall
attempted succeeds [] = []
attempted succeeds (c ∷ cs) = c ∷ (elim (succeeds c) [ true ↦ attempted succeeds cs | false ↦ [] ])

abbrev pub cat_name : Text
cat_name = b'c' ∷ b'a' ∷ b't' ∷ []

-- What is left to do behind the group and the terminal.
abbrev pub program_calls : Text → List Text → List SetupCall
program_calls name args =
    default_action sigint
    ∷ default_action sigquit
    ∷ default_action sigtstp
    ∷ default_action sigttin
    ∷ default_action sigttou
    ∷ default_action sigchld
    ∷ (if text_eq name cat_name then run_cat args else run_program name args)
    ∷ []

abbrev pub group_of : ℕ → ℕ → ℕ
group_of pid pgid = if pgid == 0 then pid else pgid

-- All the calls of a child; cat is always in the foreground.
unfoldable pub child_calls : Text → List Text → ℕ → ℕ → Bool → List SetupCall
child_calls name args pid pgid foreground =
    let group = group_of pid pgid in
    set_group pid group
    ∷ (if text_eq name cat_name || foreground
        then take_terminal group ∷ program_calls name args
        else program_calls name args)

-- `none` where `args[0]` is NULL.
unfoldable pub launch_process :
    (SetupCall → Bool) → List Text → ℕ → ℕ → Bool → Option (List SetupCall)
unfolding attempted child_calls
launch_process succeeds [] pid pgid foreground = none
launch_process succeeds (name ∷ args) pid pgid foreground =
    some (attempted succeeds (child_calls name (name ∷ args) pid pgid foreground))

-- The loop that stops the shell until it is in the foreground, in the rounds that it takes.
unfoldable pub stops : ℕ → ℕ → List SetupCall
stops zero pgid = []
stops (suc n) pgid = stop_group pgid ∷ stops n pgid

-- The signals that the shell ignores, its handler, its group and the terminal.
unfoldable pub initialize_shell : (SetupCall → Bool) → Bool → ℕ → ℕ → ℕ → List SetupCall
unfolding attempted stops
initialize_shell succeeds false rounds old_pgid pid = []
initialize_shell succeeds true rounds old_pgid pid =
    stops rounds old_pgid
    ++ attempted succeeds (
        ignore_signal sigint
        ∷ ignore_signal sigterm
        ∷ ignore_signal sigquit
        ∷ ignore_signal sigttin
        ∷ ignore_signal sigttou
        ∷ ignore_signal sigtstp
        ∷ handle_child
        ∷ set_group pid pid
        ∷ take_terminal pid
        ∷ [])
