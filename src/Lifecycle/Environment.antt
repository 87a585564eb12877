-- ===== src/Lifecycle/Environment.antt =====
-- `setEnv` of pkg/core/lifecycle.go: the environment of the process. A variable whose name is fixed can
-- always be set.
use test_at_scale.Prelude.{String, Dict, insert, lookup}
use test_at_scale.Models.{Payload}
use test_at_scale.Format.{or_empty}

-- The fields of the configuration that are exported.
pub record Exported : Type 0 where
  pub env : String
  pub sub_module : String

abbrev pub set_task : Payload → Dict String → Dict String
set_task payload env = insert "REPO_ID" payload.repo_id (
    insert "COMMIT_ID" payload.build_target_commit (
      insert "BUILD_ID" payload.build_id
        (insert "ORG_ID" payload.org_id (insert "TASK_ID" payload.task_id env))))

abbrev pub set_rest : Exported → String → String → Dict String → Dict String
set_rest cfg branch coverage_dir env = insert "MODULE_PATH" "" (
    insert "SUBMODULE_NAME" cfg.sub_module (
      insert "BLOCK_TESTS_FILE" "/tmp/blocktests.json" (
        insert "REPO_ROOT" "/home/nucleus/repo" (
          insert "ENDPOINT_POST_TEST_RESULTS" "http://localhost:9876/results" (
            insert "ENDPOINT_POST_TEST_LIST" "http://localhost:9876/test-list" (
              insert "ENV" cfg.env
                (insert "BRANCH_NAME" branch (insert "CODE_COVERAGE_DIR" coverage_dir env))))))))

-- `setEnv`
unfoldable pub set_env : Exported → Payload → String → Dict String → Dict String
set_env cfg payload coverage_dir env =
    set_rest cfg payload.branch_name coverage_dir (set_task payload env)

-- `os.Getenv`
abbrev pub getenv : Dict String → String → String
getenv env name = or_empty (lookup name env)
