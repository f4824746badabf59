-- ===== src/Shell/Input.antt =====
-- The arguments of a command whose input is redirected (main in shell.c).
use mathlib.Core.List.{map}
use mathlib.Core.List
use mathlib.Core.Option
use file_system_project.Prelude.{
  ℕ, zero, suc, ◌+◌, ◌-◌, ◌≤◌, ◌<◌, ◌≡◌, refl, sym, ap, ◌∙◌, Option, none, some, List, [], ◌∷◌,
  ◌++◌, arith, length, length-append, length-map, get_elem?, set, drop, replicate,
}
use file_system_project.Text.{Text}
use file_system_project.Parser.{Job, Process}
use file_system_project.Shell.Launch.{
  store_arguments, until_null, argument_array, input_arguments, buffer_size,
}

-- `j->first_process->args[0]`
abbrev pub first_argument : Job → Option Text
first_argument j = elim j.processes [ [] ↦ none | p ∷ ps ↦ get_elem? p.args 0 ]

first_process :
    (ps : List Process) (n : Text)
    → (elim ps [ [] ↦ none | p ∷ rest ↦ get_elem? p.args 0 ]) ≡ some n
    → (p : Process) × (rest : List Process) × (ps ≡ p ∷ rest) × (get_elem? p.args 0 ≡ some n)
first_process [] n h = absurd cc
first_process (p ∷ rest) n h = (p, rest, refl, h)

module _ {ℓ} {A : Type ℓ} where
  set-append :
      (pre rest : List A) (r v : A) → set (pre ++ r ∷ rest) (length pre) v ≡ pre ++ v ∷ rest
  set-append [] rest r v = refl
  set-append (x ∷ pre) rest r v = ap (λ l. x ∷ l) (set-append pre rest r v)

  length-replicate : (n : ℕ) (a : A) → length (replicate n a) ≡ n
  length-replicate zero a = refl
  length-replicate (suc n) a = ap suc (length-replicate n a)

store_argument :
    (j : Job) (js : List Job) (i : ℕ) (array : List (Option Text)) (n : Text)
    → first_argument j ≡ some n
    → i < length array
    → store_arguments i (j ∷ js) array ≡ store_arguments (i + 1) js (set array i (some n))
unfolding store_arguments
store_argument j js i array n h lt =
    let (p, ps, at, first) = first_process j.processes n h in ground (arith, at, first)

store_arguments-map :
    (jobs : List Job) (names : List Text) (pre rest : List (Option Text))
    → map first_argument jobs ≡ map some names
    → length names ≤ length rest
    → store_arguments (length pre) jobs (pre ++ rest)
      ≡ some (pre ++ (map some names ++ drop (length names) rest))
unfolding store_arguments
store_arguments-map [] [] pre rest h le = refl
store_arguments-map [] (n ∷ names) pre rest h le = absurd cc
store_arguments-map (j ∷ js) [] pre rest h le = absurd cc
store_arguments-map (j ∷ js) (n ∷ names) pre [] h le = absurd (omega arith)
store_arguments-map (j ∷ js) (n ∷ names) pre (r ∷ rest) h le =
    let first : first_argument j ≡ some n = cc in
    let others : map first_argument js ≡ map some names = cc in
    let longer : length (pre ++ some n ∷ []) ≡ length pre + 1 =
      omega (arith, length-append pre (some n ∷ [])) in
    let joined : (l : List (Option Text)) → (pre ++ some n ∷ []) ++ l ≡ pre ++ some n ∷ l =
      λ l. List.append_assoc pre (some n ∷ []) l in
    store_argument j js (length pre) (pre ++ r ∷ rest) n first
      (omega (arith, length-append pre (r ∷ rest)))
    ∙ ap (store_arguments (length pre + 1) js) (set-append pre rest r (some n) ∙ sym (joined rest))
    ∙ ap (λ i. store_arguments i js ((pre ++ some n ∷ []) ++ rest)) (sym longer)
    ∙ store_arguments-map js names (pre ++ some n ∷ []) rest others (omega arith)
    ∙ ap some (joined (map some names ++ drop (length names) rest))

until_null-map :
    (names : List Text) (rest : List (Option Text))
    → until_null (map some names ++ rest) ≡ names ++ until_null rest
unfolding until_null
until_null-map [] rest = refl
until_null-map (n ∷ names) rest = ap (λ l. n ∷ l) (until_null-map names rest)

until_null-nulls : (k m : ℕ) → until_null (drop k (replicate m none)) ≡ []
unfolding until_null
until_null-nulls zero zero = refl
until_null-nulls zero (suc m) = refl
until_null-nulls (suc k) zero = refl
until_null-nulls (suc k) (suc m) = until_null-nulls k m

until_null-drop :
    (k : ℕ) (args : List Text) (m : ℕ)
    → until_null (drop k (map some args ++ none ∷ replicate m none)) ≡ drop k args
unfolding until_null
until_null-drop zero [] m = refl
until_null-drop zero (a ∷ args) m = ap (λ l. a ∷ l) (until_null-drop zero args m)
until_null-drop (suc k) [] m = until_null-nulls k m
until_null-drop (suc k) (a ∷ args) m = until_null-drop k args m

-- With fewer than 4096 jobs, each with a first argument: the command's arguments become the first
-- arguments of all jobs, in order, and behind them those of its own arguments that stood further
-- back; its own arguments at those positions are lost.
pub input_arguments-drop :
    (args names : List Text) (jobs : List Job)
    → map first_argument jobs ≡ map some names
    → length names < 4096
    → input_arguments args jobs ≡ some (names ++ drop (length names) args)
unfolding input_arguments argument_array
input_arguments-drop args names jobs h few =
    let nulls = buffer_size - (length args + 1) in
    let array = map some args ++ none ∷ replicate nulls none in
    let nothing : Option Text = none in
    let counted : length array ≡ length args + 1 + nulls = omega (
      arith,
      length-append (map some args) (none ∷ replicate nulls none),
      length-map args (λ (a : Text). some a),
      length-replicate nulls nothing,
    ) in
    let stored = store_arguments-map jobs names [] array h (omega (arith, counted)) in
    ap (Option.map until_null) stored
    ∙ ap some (
        until_null-map names (drop (length names) array)
        ∙ ap (λ l. names ++ l) (until_null-drop (length names) args nulls))
