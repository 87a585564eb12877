-- ===== src/Driver/Tests.antt =====
-- A repository with two submodules whose discovery ends well.
use test_at_scale.Prelude.{
  String, ◌≡◌, ◌↔◌, refl, Bool, IsUnique, none, some, false, true, List, [], ◌∷◌, ◌++◌, map, lookup,
  str_eq,
}
use test_at_scale.Errs.{Result, ok, got}
use test_at_scale.Models.{
  pos, TaskPayload, MergeV2, SubModule, DiscoveryResult, Oauth, bearer, passed,
}
use test_at_scale.PayloadManager.Tests.{payload}
use test_at_scale.Config.Tests.{module_a, two_modules, sample, sample_yaml}
use test_at_scale.Config.SubModules.{check_sub_modules}
use test_at_scale.Blocklist.{new_service, Remote, get_block_tests, run_once, fetch_from_neuron}
use test_at_scale.Cache.{new_store, cache_workspace}
use test_at_scale.Cache.Tests.{storage}
use test_at_scale.Execution.{ExecutionResults}
use test_at_scale.Lifecycle.{final_status, ended_at}
use test_at_scale.Lifecycle.Racing.{over, drive, run_alone}
use test_at_scale.Lifecycle.Racing.Ends.{run_alone-Reports}
use test_at_scale.Utils.{validate_sub_module}
use test_at_scale.Driver.Env.{get_env, run_env, get_submodule_based_diff}
use test_at_scale.Driver.Actions.{World, Outside}
use test_at_scale.Driver.V2.{
  Schedule, run_discovery_helper, run_pre_run_command, all_entries, pre_run, first_entry,
  discovery_entries, discover_sub_module, build_discovery_args_v2,
}
use test_at_scale.Driver.V2.Success.{sent_names, run_discovery_helper-names}
use test_at_scale.Driver.Finish.{driver_v1, driver_v2, reported_passed}

abbrev remote : Remote
remote = record { request = λ _. (200, got "[]"); unmarshal = λ _. got []; write_file = λ _. none }

abbrev found : DiscoveryResult
found = record {
  impacted_tests = [];
  execute_all_tests = true;
  parallelism = pos 0;
  split_mode = "";
  repo_id = "r1";
  build_id = "b1";
  commit_id = "c";
  task_id = "t1";
  org_id = "o1";
  branch = "main";
  sub_module = "";
}

abbrev no_results : ExecutionResults
no_results = record {
  task_id = "t1";
  build_id = "b1";
  repo_id = "r1";
  org_id = "o1";
  commit_id = "c";
  task_type = "execute";
  results = [];
}

abbrev outside : Outside
outside = record {
  yaml = sample_yaml;
  tas_file_path = ".tas.yml";
  remote = remote;
  storage = storage;
  checksum = ok "sum";
  is_repo_root = λ path. str_eq path ".";
  join_repo = λ path. "/home/nucleus/repo/";
  sub_module_name = "a";
  install_node = λ _. none;
  user_commands = λ _ _ _ _. none;
  install_runners = λ _. none;
  send_list = λ _. none;
  changed_files = λ _ _. got [];
  diff_first = false;
  discover = λ _. got found;
  send_result = λ _. none;
  run_tests = λ _. got no_results;
  send_results = λ _. got (record { task_id = "t1"; task_status = passed; remark = "" });
}

abbrev task : TaskPayload
task = record {
  task_id = "t1";
  status = "running";
  repo_slug = "a/b";
  repo_link = "";
  repo_id = "r1";
  org_id = "o1";
  git_provider = "github";
  commit_id = "";
  build_id = "b1";
  start_time = 5;
  end_time = 0;
  remark = "";
  type = "discover";
}

abbrev world : World
world = record { task = task; blocks = new_service; cache = new_store; calls = [] }

abbrev oauth : Oauth
oauth = record { access_token = "t"; expiry = 0; refresh_token = ""; type = bearer }

abbrev swapped : Schedule
swapped = record { pre_runs = λ ms. ms; discoveries = turned }
  where
    turned : List SubModule → List SubModule
    turned (m ∷ n ∷ ms) = n ∷ m ∷ ms
    turned ms = ms

abbrev second_world : World
second_world =
    (run_discovery_helper outside swapped payload two_modules
      (record sample { post_merge = some two_modules }) true [] [] world).0

goes_well :
    run_discovery_helper outside swapped payload two_modules
      (record sample { post_merge = some two_modules })
      true
      []
      []
      world
    ≡ (second_world, ok tt)
unfolding run_discovery_helper run_pre_run_command all_entries pre_run first_entry discovery_entries
    discover_sub_module build_discovery_args_v2 get_block_tests cache_workspace get_env
    get_submodule_based_diff run_once fetch_from_neuron
goes_well = refl

run_discovery_helper-names_example :
    sent_names second_world.calls
    ≡ sent_names [] ++ map (λ m. m.name) (swapped.discoveries two_modules.sub_modules)
run_discovery_helper-names_example =
    run_discovery_helper-names outside swapped payload two_modules
      (record sample { post_merge = some two_modules }) true [] [] world second_world goes_well

distinct : check_sub_modules "preMerge" ".tas.yml" [] two_modules.sub_modules ≡ ok tt
unfolding check_sub_modules validate_sub_module
distinct = refl

abbrev ended_v1 : TaskPayload × Result (Unit {0})
ended_v1 = (driver_v1 outside world ".tas.yml").run_discovery payload task oauth "" []

abbrev ended_v2 : TaskPayload × Result (Unit {0})
ended_v2 = (driver_v2 outside swapped world ".tas.yml").run_discovery payload task oauth "" []

reported_passed_example :
    (((final_status (ended_at 9 (run_alone (drive ended_v1) task))).status ≡ passed)
      ↔ (ended_v1.1 ≡ ok tt))
    × (((final_status (ended_at 9 (run_alone (drive ended_v2) task))).status ≡ passed)
        ↔ (ended_v2.1 ≡ ok tt))
reported_passed_example =
    reported_passed outside swapped world ".tas.yml" 9 payload task oauth "" [] (λ t. none) _ _
      (λ t. refl) (run_alone-Reports (λ t. none) 9 (drive ended_v1) task over)
      (run_alone-Reports (λ t. none) 9 (drive ended_v2) task over)

abbrev root : String → Bool
root path = str_eq path "."

abbrev with_env : MergeV2
with_env = record two_modules { env_map = some (("CI", "1") ∷ []) }

abbrev module_b : SubModule
module_b = record module_a { name = "b"; path = "." }

abbrev with_pre_run : SubModule
with_pre_run = record module_a {
  prerun = some (record { commands = []; env_map = some (("KEY", "a") ∷ []) });
}

unique : IsUnique (run_env with_pre_run.prerun)
unfolding lookup
unique = (refl, tt)
