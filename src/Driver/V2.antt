-- ===== src/Driver/V2.antt =====
-- pkg/driver/driver_v2.go: the discovery for a configuration of version 2; Execution has the execution.
-- The submodules run as goroutines. `Schedule` tells in which order those of each phase go, each as a
-- whole, and so in which order their errors come; the theorems hold for every order.
pub mod Phases
pub mod Execution
pub mod Find
pub mod Success
pub mod Status
use test_at_scale.Prelude.{
  ℕ, String, Bool, true, false, not, ◌&&◌, Option, none, some, List, [], ◌∷◌, Dict, str_eq, is_some,
  length, if◌then◌else◌,
}
use test_at_scale.Errs.{
  Err, Result, ok, err, panicked, status_failed, generic, sentinel, sub_module_not_found, Reply,
  got, refused,
}
use test_at_scale.Models.{
  ℤ, pos, Payload, TaskPayload, Oauth, TasConfigV2, MergeV2, SubModule, Cache, Run, DiscoveyArgs,
  DiscoveryResult, TestExecutionArgs, event_pull_request, event_push, passed, errored,
}
use test_at_scale.Config.{AnyConfig, first, second}
use test_at_scale.Driver.Env.{get_env, get_submodule_based_diff, merge_of}
use test_at_scale.Driver.Actions.{
  Outside, World, Action, ◌>>=◌, ◌>>◌, lift, load, get_blocks, download_and_diff, upload_cache,
  cache_work, discover_tests, send_discovery, run_commands, install, install_node_version,
  send_sub_modules, skip, set_status, result_of, checked, failing_with, as_generic, same, note,
  call_then, executed, reported, ran,
}
use test_at_scale.Driver.V1.{repo_dir, key_of, paths_of}

pub record Schedule : Type 0 where
  pub pre_runs : List SubModule → List SubModule
  pub discoveries : List SubModule → List SubModule

abbrev pub as_v2 : AnyConfig → Result TasConfigV2
as_v2 (second config) = ok config
as_v2 (first config) = panicked

abbrev with_checksum : TasConfigV2 → Result String → Result TasConfigV2
with_checksum config (ok key) =
    ok (record config { cache = some (record { key = key; paths = [] }) })
with_checksum config (err e) = err e
with_checksum config panicked = panicked

unfoldable pub set_cache_v2 : Outside → TasConfigV2 → Result TasConfigV2
set_cache_v2 o config =
    if not (is_some config.cache) then with_checksum config o.checksum else ok config

unfoldable pub set_up_discovery :
    Outside → Payload → TasConfigV2 → Oauth → Action (TasConfigV2 × Bool × Dict ℕ)
unfolding set_cache_v2
set_up_discovery o p given oauth = do
  config ← lift (set_cache_v2 o given)
  found ← download_and_diff o true (key_of config.cache) p oauth
  lift (ok (config, found.0, found.1))

abbrev pub run_module_pre_run : Outside → SubModule → Dict String → Option Run → Action (Unit {0})
run_module_pre_run o m secrets none = skip
run_module_pre_run o m secrets (some run) =
    run_commands o "prerun" "Failed in running pre-run steps" run secrets (o.join_repo m.path)

-- `runPreRunForEachSubModule`
unfoldable pub pre_run : Outside → Payload → Dict String → SubModule → Action (Unit {0})
pre_run o p secrets m = do
  get_blocks o m.blocklist p.branch_name
  run_module_pre_run o m secrets m.prerun
  install o (o.join_repo m.path)

-- What one goroutine leaves: the state, and its entry in the channel of errors.
abbrev pub entered {ℓ} : {A : Type ℓ} → World × Result A → World × Result (Option Err)
entered (w, ok a) = (w, ok none)
entered (w, err e) = (w, ok (some e))
entered (w, panicked) = (w, panicked)

-- A failing pre-run marks the task at once.
abbrev pub marked : World × Result (Option Err) → World × Result (Option Err)
marked (w, ok (some e)) = ((set_status errored w).0, ok (some e))
marked (w, r) = (w, r)

-- The goroutines one after another, and the channel that they fill.
unfoldable pub all_entries :
    (SubModule → Action (Option Err)) → List SubModule → Action (List (Option Err))
all_entries each [] = lift (ok [])
all_entries each (m ∷ ms) = do
  entry ← each m
  entries ← all_entries each ms
  lift (ok (entry ∷ entries))

-- The receiving loop returns the first error of the channel.
unfoldable pub first_entry : List (Option Err) → Result (Unit {0})
first_entry [] = ok tt
first_entry (none ∷ entries) = first_entry entries
first_entry (some e ∷ entries) = err e

abbrev pub pre_run_entry : Outside → Payload → Dict String → SubModule → Action (Option Err)
pre_run_entry o p secrets m w = marked (entered (pre_run o p secrets m w))

-- A failing pre-run of the top level is returned as it is.
abbrev pub run_top_pre_run : Outside → Dict String → Option Run → Action (Unit {0})
run_top_pre_run o secrets none = skip
run_top_pre_run o secrets (some run) =
    call_then (ran "prerun" run repo_dir)
      (checked same (o.user_commands "prerun" run secrets repo_dir))

-- `runPreRunCommand`
unfoldable pub run_pre_run_command :
    Outside → Schedule → Payload → Option Run → Dict String → List SubModule → Action (Unit {0})
unfolding pre_run all_entries first_entry
run_pre_run_command o s p top secrets ms = do
  run_top_pre_run o secrets top
  entries ← all_entries (pre_run_entry o p secrets) (s.pre_runs ms)
  lift (first_entry entries)

unfoldable pub build_discovery_args_v2 :
    Outside
    → Payload
    → TasConfigV2
    → SubModule
    → Dict String
    → Bool
    → Dict ℕ
    → Result (TasConfigV2 × DiscoveyArgs)
build_discovery_args_v2 o p config m secrets diff_exists diff =
    elim (get_env o.is_repo_root p.event_type config m) [
      | panicked ↦ panicked
      | err e ↦ err e
      | ok (config', env) ↦ ok (
        config',
        record {
          test_pattern = m.patterns;
          payload = p;
          env_map = env;
          secret_data = secrets;
          test_config_file = m.config_file;
          framework = m.framework;
          smart_run = config.smart_run;
          diff = get_submodule_based_diff diff m.path;
          diff_exists = diff_exists;
          framework_version = pos 0;
          cwd = o.join_repo m.path;
        },
      )
    ]

abbrev pub populate_v2 : TasConfigV2 → SubModule → DiscoveryResult → DiscoveryResult
populate_v2 config m r = record r {
  parallelism = m.parallelism;
  split_mode = config.split_mode;
  sub_module = m.name;
}

-- `runDiscoveryForEachSubModule` from the arguments on.
unfoldable pub discover_sub_module :
    Outside → TasConfigV2 → SubModule → DiscoveyArgs → Action (Unit {0})
discover_sub_module o config m args = do
  result ← discover_tests o args
  send_discovery o (populate_v2 config m result)

abbrev pub discovery_entry : Outside → TasConfigV2 → SubModule → DiscoveyArgs → Action (Option Err)
discovery_entry o config m args w = entered (discover_sub_module o config m args w)

-- The goroutines one after another; the variables of each are written into the configuration that the
-- next ones find.
unfoldable pub discovery_entries :
    Outside
    → Payload
    → Dict String
    → Bool
    → Dict ℕ
    → TasConfigV2
    → List SubModule
    → Action (List (Option Err))
unfolding build_discovery_args_v2 discover_sub_module
discovery_entries o p secrets diff_exists diff config [] = lift (ok [])
discovery_entries o p secrets diff_exists diff config (m ∷ ms) = do
  built ← lift (build_discovery_args_v2 o p config m secrets diff_exists diff)
  entry ← discovery_entry o built.0 m built.1
  entries ← discovery_entries o p secrets diff_exists diff built.0 ms
  lift (ok (entry ∷ entries))

unfoldable pub run_discovery_helper :
    Outside
    → Schedule
    → Payload
    → MergeV2
    → TasConfigV2
    → Bool
    → Dict ℕ
    → Dict String
    → Action (Unit {0})
unfolding run_pre_run_command discovery_entries first_entry
run_discovery_helper o s p merge config diff_exists diff secrets = do
  send_sub_modules o p (length merge.sub_modules)
  (if not (str_eq config.node_version "") then install_node_version o config.node_version else skip)
  run_pre_run_command o s p merge.pre_run secrets merge.sub_modules
  cache_work o
  entries ← discovery_entries o p secrets diff_exists diff config (s.discoveries merge.sub_modules)
  lift (first_entry entries)

-- A merge section is a pointer that is read without a test.
abbrev pub the_merge : Option MergeV2 → Result MergeV2
the_merge none = panicked
the_merge (some merge) = ok merge

-- An upload that fails is only logged.
unfoldable pub run_discovery_v2 :
    Outside → Schedule → Payload → Oauth → Dict String → Action (Unit {0})
unfolding set_up_discovery run_discovery_helper
run_discovery_v2 o s p oauth secrets = do
  tas ← load o (pos 2) p
  given ← lift (as_v2 tas)
  set_status passed
  ready ← set_up_discovery o p given oauth
  merge ←
      lift (
        the_merge
          (if str_eq p.event_type event_push then ready.0.post_merge else ready.0.pre_merge))
  run_discovery_helper o s p merge ready.0 ready.1 ready.2 secrets
  logged ← upload_cache o (key_of ready.0.cache) (paths_of ready.0.cache)
  skip
