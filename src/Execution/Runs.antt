-- ===== src/Execution/Runs.antt =====
-- What the loop of pkg/testexecutionservice/testexecution.go collects.
use test_at_scale.Prelude.{
  subst, ◌↔◌, ◌⊎◌, inl, inr, refl, Option, none, some, ℕ, zero, suc, ◌+◌, String, ◌≡◌, sym, ap, ◌∙◌,
  List, [], ◌++◌,
}
use mathlib.Core.List.{append_assoc, append-nil}
use test_at_scale.Errs.{Err, Result, ok, check, ◌>>◌, >>=-eq-ok}
use test_at_scale.Models.{TestExecutionArgs}
use test_at_scale.Stats.{ExecutionResult}
use test_at_scale.Command.{get_env_variables}
use test_at_scale.Execution.{
  Runner, Attempt, finished, run, run_loop, attempted, command_line, round_env, build_cmd_args,
  report_of,
}

-- A command that started and was measured, and gave these results, or ended without an error and gave none.
abbrev pub Counts : Attempt → List ExecutionResult → Type 0
Counts t results =
    (t.started ≡ none)
    × (t.captured ≡ none)
    × ((t.result ≡ some results) ⊎ (t.result ≡ none) × (t.waited ≡ none) × (results ≡ []))

-- The results of `n` rounds from `i` on, each of which started, was measured, and gave a result or
-- ended without an error.
pub data Rounds (r : Runner) (a : TestExecutionArgs) (args : List String)
    : ℕ → ℕ → List String → List ExecutionResult → Type 0 where
  no_round : {i : ℕ} {env : List String} → Rounds r a args zero i env []
  round :
      {n i : ℕ} {env : List String} {first rest : List ExecutionResult}
      → Counts (r.attempt i (command_line a args) (round_env a env) a.cwd) first
      → Rounds r a args n (i + 1) (round_env a env) rest
      → Rounds r a args (suc n) i env (first ++ rest)

checks-ok :
    (e f : Option Err) (next : Result (List ExecutionResult)) (out : List ExecutionResult)
    → ((check e >> check f) >> next) ≡ ok out
    → (e ≡ none) × (f ≡ none) × (next ≡ ok out)
checks-ok none none next out h = (refl, refl, h)
checks-ok none (some e) next out h = cc
checks-ok (some e) f next out h = cc

finished-ok :
    (waited : Option Err) (result : Option (List ExecutionResult)) (out : List ExecutionResult)
    → finished waited result ≡ ok out
    → (result ≡ some out) ⊎ (result ≡ none) × (waited ≡ none) × (out ≡ [])
finished-ok none none out h = inr (refl, refl, cc)
finished-ok (some e) none out h = cc
finished-ok none (some results) out h = inl cc
finished-ok (some e) (some results) out h = inl cc

attempted-Counts : (t : Attempt) (out : List ExecutionResult) → attempted t ≡ ok out → Counts t out
attempted-Counts t out h =
    let (started, captured, h1) =
      checks-ok t.started t.captured (finished t.waited t.result) out h in
    (started, captured, finished-ok t.waited t.result out h1)

finished-some :
    (waited : Option Err) (out : List ExecutionResult) → finished waited (some out) ≡ ok out
finished-some none out = refl
finished-some (some e) out = refl

Counts-attempted : (t : Attempt) (out : List ExecutionResult) → Counts t out → attempted t ≡ ok out
Counts-attempted t out (started, captured, inl given) =
    rw (started, captured, given) (finished-some t.waited out)
Counts-attempted t out (started, captured, inr (absent, ended, nothing)) =
    rw (started, captured, absent, ended, nothing) refl

run_loop-Rounds :
    (r : Runner) (a : TestExecutionArgs) (args : List String) (n i : ℕ) (env : List String)
    (acc out : List ExecutionResult)
    → run_loop r a args n i env acc ≡ ok out
    → (new : List ExecutionResult) × Rounds r a args n i env new × (out ≡ acc ++ new)
unfolding run_loop
run_loop-Rounds r a args zero i env acc out h = ([], no_round, cc (h, append-nil acc))
run_loop-Rounds r a args (suc n) i env acc out h =
    let (first, went, h1) =
      >>=-eq-ok (attempted (r.attempt i (command_line a args) (round_env a env) a.cwd)) _ h in
    let (rest, rounds, joined) =
      run_loop-Rounds r a args n (i + 1) (round_env a env) (acc ++ first) out h1 in
    (
      first ++ rest,
      round (attempted-Counts _ first went) rounds,
      joined ∙ append_assoc acc first rest,
    )

Rounds-run_loop :
    (r : Runner) (a : TestExecutionArgs) (args : List String) (n i : ℕ) (env : List String)
    (acc new : List ExecutionResult)
    → Rounds r a args n i env new
    → run_loop r a args n i env acc ≡ ok (acc ++ new)
unfolding run_loop
Rounds-run_loop r a args zero i env acc new no_round = ap ok (sym (append-nil acc))
Rounds-run_loop r a args (suc n) i env acc new (round {first = first} {rest = rest} went rounds) =
    rw (Counts-attempted (r.attempt i (command_line a args) (round_env a env) a.cwd) first went) (
      Rounds-run_loop r a args n (i + 1) (round_env a env) (acc ++ first) rest rounds
      ∙ ap ok (append_assoc acc first rest))

-- When the command line and the environment can be made, the execution returns a report exactly if
-- each of the configured runs started, was measured, and gave a result or ended without an error; the
-- report then holds the results of all runs, in their order.
pub run-Rounds :
    (r : Runner) (a : TestExecutionArgs) (args env : List String) (new : List ExecutionResult)
    → build_cmd_args r a ≡ ok args
    → get_env_variables r.shell a.env_map a.secret_data ≡ ok env
    → (run r a
        ≡ ok (record {
          task_id = a.payload.task_id;
          build_id = a.payload.build_id;
          repo_id = a.payload.repo_id;
          org_id = a.payload.org_id;
          commit_id = a.payload.build_target_commit;
          task_type = a.payload.task_type;
          results = new;
        }))
      ↔ Rounds r a args r.consecutive_runs 1 env new
unfolding run
run-Rounds r a args env new built known = (
  λ h.
      let (results, looped, same) =
        >>=-eq-ok (run_loop r a args r.consecutive_runs 1 env [])
          (λ results. ok (report_of a results)) (rw (built, known) at h) in
      let (got, rounds, joined) =
        run_loop-Rounds r a args r.consecutive_runs 1 env [] results looped in
      let reports : report_of a results ≡ report_of a new = cc same in
      let e : got ≡ new = sym joined ∙ ap (λ x. x.results) reports in
      subst (Rounds r a args r.consecutive_runs 1 env) e rounds,
  λ rounds. simp (built, known, Rounds-run_loop r a args r.consecutive_runs 1 env [] new rounds),
)
