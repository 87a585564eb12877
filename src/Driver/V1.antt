-- ===== src/Driver/V1.antt =====
-- pkg/driver/driver_v1.go: discovery and execution for a configuration of version 1.
pub mod Success
use test_at_scale.Prelude.{
  ℕ, String, Bool, true, false, not, ◌&&◌, Option, none, some, List, [], ◌∷◌, Dict, str_eq, is_some,
  if◌then◌else◌,
}
use test_at_scale.Errs.{Err, Result, ok, err, panicked, status_failed, generic}
use test_at_scale.Models.{
  ℤ, pos, Payload, TaskPayload, Oauth, TasConfig, Merge, Cache, Run, DiscoveyArgs, DiscoveryResult,
  TestExecutionArgs, event_pull_request, passed,
}
use test_at_scale.Utils.{framework_language}
use test_at_scale.Config.{AnyConfig, first, second}
use test_at_scale.Driver.Actions.{
  Outside, World, Action, ◌>>=◌, ◌>>◌, lift, load, get_blocks, download_and_diff, upload_cache,
  cache_work, discover_tests, send_discovery, run_commands, install, install_node_version,
  send_sub_modules, skip, set_status, result_of, checked, failing_with, as_generic, note, executed,
  reported,
}

abbrev pub repo_dir : String
repo_dir = "/home/nucleus/repo"

-- The type assertion on what was loaded.
abbrev pub as_v1 : AnyConfig → Result TasConfig
as_v1 (first config) = ok config
as_v1 (second config) = panicked

abbrev pub is_js : TasConfig → Bool
is_js config = str_eq (framework_language config.framework) "javascript"

abbrev with_checksum : TasConfig → Result String → Result TasConfig
with_checksum config (ok key) =
    ok (record config { cache = some (record { key = key; paths = [] }) })
with_checksum config (err e) = err e
with_checksum config panicked = panicked

unfoldable pub set_cache : Outside → TasConfig → Result TasConfig
set_cache o config =
    if not (is_some config.cache) && is_js config
    then with_checksum config o.checksum
    else ok config

-- The fields of a cache pointer, which is read only where it is not nil.
abbrev pub key_of : Option Cache → String
key_of none = ""
key_of (some c) = c.key

abbrev pub paths_of : Option Cache → List String
paths_of none = []
paths_of (some c) = c.paths

abbrev merge_fields : Option Merge → Result (List String × Dict String)
merge_fields none = panicked
merge_fields (some m) = ok (m.patterns, elim m.env_map [ none ↦ [] | some env ↦ env ])

unfoldable pub get_env_and_pattern : Payload → TasConfig → Result (List String × Dict String)
get_env_and_pattern p config =
    merge_fields
      (if str_eq p.event_type event_pull_request then config.premerge else config.postmerge)

abbrev pub js_key : TasConfig → String
js_key config = if is_js config then key_of config.cache else ""

unfoldable pub set_up : Outside → Payload → TasConfig → Oauth → Action (TasConfig × Bool × Dict ℕ)
unfolding set_cache
set_up o p given oauth = do
  config ← lift (set_cache o given)
  (if not (str_eq config.node_version "") && is_js config
      then install_node_version o config.node_version
      else skip)
  get_blocks o config.blocklist p.branch_name
  found ← download_and_diff o (is_js config) (js_key config) p oauth
  lift (ok (config, found.0, found.1))

unfoldable pub build_discovery_args :
    Payload → TasConfig → Dict String → Bool → Dict ℕ → Result DiscoveyArgs
unfolding get_env_and_pattern
build_discovery_args p config secrets diff_exists diff = elim (get_env_and_pattern p config) [
  | panicked ↦ panicked
  | err e ↦ err e
  | ok (patterns, env) ↦ ok (record {
    test_pattern = patterns;
    payload = p;
    env_map = env;
    secret_data = secrets;
    test_config_file = config.config_file;
    framework = config.framework;
    smart_run = config.smart_run;
    diff = diff;
    diff_exists = diff_exists;
    framework_version = config.framework_version;
    cwd = repo_dir;
  })
]

unfoldable pub build_test_execution_args :
    Payload → TasConfig → Dict String → String → Result TestExecutionArgs
unfolding get_env_and_pattern
build_test_execution_args p config secrets coverage_dir = elim (get_env_and_pattern p config) [
  | panicked ↦ panicked
  | err e ↦ err e
  | ok (patterns, env) ↦ ok (record {
    payload = p;
    coverage_dir = coverage_dir;
    test_pattern = patterns;
    env_map = env;
    test_config_file = config.config_file;
    framework = config.framework;
    secret_data = secrets;
    framework_version = config.framework_version;
    cwd = repo_dir;
  })
]

abbrev pub populate_discovery : TasConfig → DiscoveryResult → DiscoveryResult
populate_discovery config r = record r {
  parallelism = config.parallelism;
  split_mode = config.split_mode;
}

abbrev pub run_optional : Outside → String → String → Option Run → Dict String → Action (Unit {0})
run_optional o kind remark none secrets = skip
run_optional o kind remark (some run) secrets = run_commands o kind remark run secrets repo_dir

abbrev pub upload_for_js : Outside → TasConfig → Action (Unit {0})
upload_for_js o config =
    if is_js config
    then (upload_cache o (js_key config) (paths_of config.cache) >>= λ e.
        lift (checked as_generic e))
    else skip

unfoldable pub run_discovery : Outside → Payload → Oauth → Dict String → Action (Unit {0})
unfolding set_up build_discovery_args
run_discovery o p oauth secrets = do
  tas ← load o (pos 1) p
  given ← lift (as_v1 tas)
  ready ← set_up o p given oauth
  send_sub_modules o p 1
  run_optional o "prerun" "Failed in running pre-run steps" ready.0.prerun secrets
  install o repo_dir
  cache_work o
  args ← lift (build_discovery_args p ready.0 secrets ready.1 ready.2)
  result ← discover_tests o args
  send_discovery o (populate_discovery ready.0 result)
  upload_for_js o ready.0
  set_status passed

-- `Run` gives no results beside an error.
unfoldable pub run_execution : Outside → Payload → String → Dict String → Action (Unit {0})
unfolding set_cache build_test_execution_args
run_execution o p coverage_dir secrets = do
  tas ← load o (pos 1) p
  given ← lift (as_v1 tas)
  config ← lift (set_cache o given)
  get_blocks o config.blocklist p.branch_name
  args ← lift (build_test_execution_args p config secrets coverage_dir)
  note (executed args)
  results ← lift (result_of (failing_with "Failed in executing tests.") (o.run_tests args))
  note (reported results)
  resp ← lift (result_of as_generic (o.send_results results))
  set_status resp.task_status
  run_optional o "postrun" "Failed in running post-run steps." config.postrun secrets
