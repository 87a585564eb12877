-- ===== src/Models/Runs.antt =====
-- What a discovery and an execution are given and what they report, pkg/core/models.go.
use test_at_scale.Prelude.{ℕ, String, Bool, List, Dict}
use test_at_scale.Models.Int.{ℤ}
use test_at_scale.Models.Task.{Payload}

pub record DiscoveyArgs : Type 0 where
  pub test_pattern : List String
  pub payload : Payload
  pub env_map : Dict String
  pub secret_data : Dict String
  pub test_config_file : String
  pub framework : String
  pub smart_run : Bool
  pub diff : Dict ℕ
  pub diff_exists : Bool
  pub framework_version : ℤ
  pub cwd : String

-- Without the writer of the logs.
pub record TestExecutionArgs : Type 0 where
  pub payload : Payload
  pub coverage_dir : String
  pub test_pattern : List String
  pub env_map : Dict String
  pub test_config_file : String
  pub framework : String
  pub secret_data : Dict String
  pub framework_version : ℤ
  pub cwd : String

-- Without the tests and the test suites, which are passed on unread.
pub record DiscoveryResult : Type 0 where
  pub impacted_tests : List String
  pub execute_all_tests : Bool
  pub parallelism : ℤ
  pub split_mode : String
  pub repo_id : String
  pub build_id : String
  pub commit_id : String
  pub task_id : String
  pub org_id : String
  pub branch : String
  pub sub_module : String

pub record TestReportResponsePayload : Type 0 where
  pub task_id : String
  pub task_status : String
  pub remark : String

pub record SubModuleList : Type 0 where
  pub build_id : String
  pub total_sub_module : ℕ

-- `core.CoverageManifest`, of which the threshold is only looked at for its presence.
pub record CoverageManifest : Type 0 where
  pub removed_files : List String
  pub all_files_executed : Bool
  pub has_threshold : Bool
