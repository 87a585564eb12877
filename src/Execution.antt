-- ===== src/Execution.antt =====
-- pkg/testexecutionservice/testexecution.go: the runs of the tests, as often as configured, and the
-- report. A started command, its statistics, its end and the result that it posts answer through
-- `Attempt`; the logs are left out. `getPatternAndEnvV1` is called by nothing.
pub mod Runs
pub mod Locators
pub mod Tests
use test_at_scale.Prelude.{
  ℕ, zero, suc, ◌+◌, String, Bool, true, false, not, ◌||◌, ◌&&◌, Option, none, some, List, [], ◌∷◌,
  ◌++◌, str_eq, if◌then◌else◌,
}
use test_at_scale.Errs.{
  Err, error, Result, ok, err, panicked, Reply, got, refused, check, refuse_if, ◌>>=◌, ◌>>◌,
}
use test_at_scale.Models.{Payload, TestExecutionArgs, TestReportResponsePayload}
use test_at_scale.Utils.{get_args, framework_runner}
use test_at_scale.Stats.{ExecutionResult}
use test_at_scale.Command.{Shell, get_env_variables}

pub record ExecutionResults : Type 0 where
  pub task_id : String
  pub build_id : String
  pub repo_id : String
  pub org_id : String
  pub commit_id : String
  pub task_type : String
  pub results : List ExecutionResult

-- One command: `Start`, `CaptureTestStats`, `Wait`, and what arrives from the statistics.
pub record Attempt : Type 0 where
  pub started : Option Err
  pub captured : Option Err
  pub waited : Option Err
  pub result : Option (List ExecutionResult)

pub record Runner : Type 0 where
  pub shell : Shell
  pub consecutive_runs : ℕ
  pub locators_file : String → Result String
  pub attempt : ℕ → List String → List String → String → Attempt
  pub post : ExecutionResults → Reply String
  pub decode : String → Reply (Option TestReportResponsePayload)

unfoldable pub build_cmd_args : Runner → TestExecutionArgs → Result (List String)
build_cmd_args r a =
    let args =
      framework_runner a.framework
      ∷ get_args "execute" a.framework a.framework_version a.test_config_file a.test_pattern in
    if not (str_eq a.payload.locator_address "")
    then (r.locators_file a.payload.locator_address >>= λ file.
        ok (args ++ "--locator-file" ∷ file ∷ []))
    else ok args

abbrev pub is_nyc : String → Bool
is_nyc framework = str_eq framework "jasmine" || str_eq framework "mocha"

abbrev pub command_line : TestExecutionArgs → List String → List String
command_line a args =
    if is_nyc a.framework && a.payload.collect_coverage then "nyc" ∷ args else args

-- The variable is appended in every round again.
abbrev pub round_env : TestExecutionArgs → List String → List String
round_env a env =
    if not (is_nyc a.framework) && a.payload.collect_coverage
    then env ++ "TAS_COLLECT_COVERAGE=true" ∷ []
    else env

-- The end of one command: its error counts only if no result came.
abbrev pub finished : Option Err → Option (List ExecutionResult) → Result (List ExecutionResult)
finished none none = ok []
finished (some e) none = err e
finished waited (some results) = ok results

abbrev pub attempted : Attempt → Result (List ExecutionResult)
attempted t = check t.started >> check t.captured >> finished t.waited t.result

-- The loop, from the run `i` on, with the number of runs that are left.
unfoldable pub run_loop :
    Runner
    → TestExecutionArgs
    → List String
    → ℕ
    → ℕ
    → List String
    → List ExecutionResult
    → Result (List ExecutionResult)
run_loop r a args zero i env acc = ok acc
run_loop r a args (suc left) i env acc =
    attempted (r.attempt i (command_line a args) (round_env a env) a.cwd) >>= λ results.
    run_loop r a args left (i + 1) (round_env a env) (acc ++ results)

abbrev pub report_of : TestExecutionArgs → List ExecutionResult → ExecutionResults
report_of a results = record {
  task_id = a.payload.task_id;
  build_id = a.payload.build_id;
  repo_id = a.payload.repo_id;
  org_id = a.payload.org_id;
  commit_id = a.payload.build_target_commit;
  task_type = a.payload.task_type;
  results = results;
}

unfoldable pub run : Runner → TestExecutionArgs → Result ExecutionResults
unfolding run_loop
run r a = do
  args ← build_cmd_args r a
  env ← get_env_variables r.shell a.env_map a.secret_data
  results ← run_loop r a args r.consecutive_runs 1 env []
  ok (report_of a results)

-- A body that is the JSON null leaves a nil pointer, which is then read.
abbrev reported : Reply (Option TestReportResponsePayload) → Result TestReportResponsePayload
reported (refused e) = err e
reported (got none) = panicked
reported (got (some resp)) =
    refuse_if (str_eq resp.task_status "") (error "empty task status") >> ok resp

abbrev answered : Runner → Reply String → Result TestReportResponsePayload
answered r (refused e) = err e
answered r (got body) = reported (r.decode body)

unfoldable pub send_results : Runner → ExecutionResults → Result TestReportResponsePayload
send_results r payload = answered r (r.post payload)
