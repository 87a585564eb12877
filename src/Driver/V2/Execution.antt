-- ===== src/Driver/V2/Execution.antt =====
-- pkg/driver/driver_v2.go: the execution of the tests of one submodule.
use test_at_scale.Prelude.{
  String, not, Option, none, some, List, [], ◌∷◌, Dict, str_eq, if◌then◌else◌,
}
use test_at_scale.Errs.{Result, ok, err, panicked, sentinel, sub_module_not_found}
use test_at_scale.Models.{pos, Payload, TasConfigV2, MergeV2, SubModule, Run, TestExecutionArgs}
use test_at_scale.Driver.Env.{get_env, merge_of}
use test_at_scale.Driver.Actions.{
  Outside, Action, ◌>>=◌, ◌>>◌, lift, load, get_blocks, run_commands, install, install_node_version,
  skip, set_status, result_of, as_generic, same, note, executed, reported,
}
use test_at_scale.Driver.V2.{as_v2, set_cache_v2}

unfoldable pub find_in : String → List SubModule → Result SubModule
find_in name [] = err (sentinel sub_module_not_found)
find_in name (m ∷ ms) = let rest = find_in name ms in if str_eq m.name name then ok m else rest

abbrev modules_of : Option MergeV2 → Result (List SubModule)
modules_of none = panicked
modules_of (some merge) = ok merge.sub_modules

unfoldable pub find_submodule : Payload → TasConfigV2 → String → Action SubModule
unfolding find_in
find_submodule p config name = do
  ms ← lift (modules_of (merge_of p.event_type config))
  lift (find_in name ms)

unfoldable pub run_pre_run_before_test_execution :
    Outside → TasConfigV2 → SubModule → Run → Dict String → Action (Unit {0})
run_pre_run_before_test_execution o config m run secrets = do
  (if not (str_eq config.node_version "") then install_node_version o config.node_version else skip)
  run_commands o "prerun" "Failed in running pre-run steps" run secrets (o.join_repo m.path)
  install o (o.join_repo m.path)

unfoldable pub build_test_execution_args_v2 :
    Outside → Payload → TasConfigV2 → SubModule → Dict String → String → Result TestExecutionArgs
build_test_execution_args_v2 o p config m secrets coverage_dir =
    elim (get_env o.is_repo_root p.event_type config m) [
      | panicked ↦ panicked
      | err e ↦ err e
      | ok (config', env) ↦ ok (record {
        payload = p;
        coverage_dir = coverage_dir;
        test_pattern = m.patterns;
        env_map = env;
        test_config_file = m.config_file;
        framework = m.framework;
        secret_data = secrets;
        framework_version = pos 0;
        cwd = o.join_repo m.path;
      })
    ]

unfoldable pub run_execution_v2 : Outside → Payload → String → Dict String → Action (Unit {0})
unfolding set_cache_v2 find_submodule run_pre_run_before_test_execution build_test_execution_args_v2
run_execution_v2 o p coverage_dir secrets = do
  tas ← load o (pos 2) p
  given ← lift (as_v2 tas)
  config ← lift (set_cache_v2 o given)
  m ← find_submodule p config o.sub_module_name
  get_blocks o m.blocklist p.branch_name
  (elim m.prerun [
    | none ↦ skip
    | some run ↦
        if m.run_prerun_every_time
        then run_pre_run_before_test_execution o config m run secrets
        else skip
  ])
  args ← lift (build_test_execution_args_v2 o p config m secrets coverage_dir)
  note (executed args)
  results ← lift (result_of same (o.run_tests args))
  note (reported results)
  resp ← lift (result_of as_generic (o.send_results results))
  set_status resp.task_status
  (elim m.postrun [
    | none ↦ skip
    | some run ↦
        run_commands o "postrun" "Failed in running post-run steps." run secrets
          (o.join_repo m.path)
  ])
