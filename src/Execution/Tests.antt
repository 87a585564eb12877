-- ===== src/Execution/Tests.antt =====
-- Two runs of one command, the second without a result.
use test_at_scale.Prelude.{◌≡◌, ◌↔◌, refl, none, some, List, String, [], ◌∷◌}
use test_at_scale.Errs.{ok, foreign, got}
use test_at_scale.Models.{TestExecutionArgs, pos}
use test_at_scale.PayloadManager.Tests.{payload}
use test_at_scale.Stats.{ExecutionResult}
use test_at_scale.Command.{get_env_variables, env_entries}
use test_at_scale.Command.Tests.{shell}
use test_at_scale.Utils.{get_args, framework_runner}
use test_at_scale.Execution.{Runner, Attempt, run, build_cmd_args, report_of}
use test_at_scale.Execution.Runs.{Rounds, run-Rounds}

abbrev gone : ExecutionResult
gone = record { test_payload = []; test_suite_payload = [] }

abbrev good : Attempt
good = record {
  started = none;
  captured = none;
  waited = some (foreign "exit 1");
  result = some (gone ∷ []);
}

abbrev runner : Runner
runner = record {
  shell = shell;
  consecutive_runs = 2;
  locators_file = λ _. ok "locators";
  attempt = λ i args env cwd. good;
  post = λ _. got "{}";
  decode = λ _. got none;
}

abbrev args : TestExecutionArgs
args = record {
  payload = payload;
  coverage_dir = "";
  test_pattern = "a.js" ∷ [];
  env_map = [];
  test_config_file = "";
  framework = "jest";
  secret_data = [];
  framework_version = pos 0;
  cwd = "/repo";
}

abbrev line : List String
line =
    framework_runner args.framework
    ∷ get_args "execute" args.framework args.framework_version args.test_config_file
        args.test_pattern

built : build_cmd_args runner args ≡ ok line
unfolding build_cmd_args
built = refl

known : get_env_variables shell [] [] ≡ ok ("HOME=/root" ∷ [])
unfolding get_env_variables env_entries
known = refl

run-Rounds_example :
    (run runner args ≡ ok (report_of args (gone ∷ gone ∷ [])))
    ↔ Rounds runner args line 2 1 ("HOME=/root" ∷ []) (gone ∷ gone ∷ [])
run-Rounds_example = run-Rounds runner args line ("HOME=/root" ∷ []) (gone ∷ gone ∷ []) built known
