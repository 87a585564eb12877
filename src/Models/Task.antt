-- ===== src/Models/Task.antt =====
-- The payload of a task, its report and the results of its run, pkg/core/models.go.
use test_at_scale.Prelude.{ℕ, String, Bool, List}
use test_at_scale.Models.Int.{ℤ}

abbrev pub event_push : String
event_push = "push"

abbrev pub event_pull_request : String
event_pull_request = "pull-request"

abbrev pub github : String
github = "github"

abbrev pub gitlab : String
gitlab = "gitlab"

abbrev pub bitbucket : String
bitbucket = "bitbucket"

-- How a file was changed. The values are bits: added | removed is modified.
abbrev pub file_added : ℕ
file_added = 1

abbrev pub file_removed : ℕ
file_removed = 2

abbrev pub file_modified : ℕ
file_modified = 3

abbrev pub bearer : String
bearer = "Bearer"

abbrev pub basic : String
basic = "Basic"

abbrev pub initiating : String
initiating = "initiating"

abbrev pub running : String
running = "running"

abbrev pub failed : String
failed = "failed"

abbrev pub aborted : String
aborted = "aborted"

abbrev pub passed : String
passed = "passed"

abbrev pub errored : String
errored = "error"

abbrev pub discovery_task : String
discovery_task = "discover"

abbrev pub execution_task : String
execution_task = "execute"

abbrev pub flaky_task : String
flaky_task = "flaky"

abbrev pub blocklisted : String
blocklisted = "blocklisted"

pub record CommitChangeList : Type 0 where
  pub sha : String
  pub link : String
  pub added : List String
  pub removed : List String
  pub modified : List String
  pub message : String

pub record Payload : Type 0 where
  pub repo_slug : String
  pub fork_slug : String
  pub repo_link : String
  pub build_target_commit : String
  pub build_base_commit : String
  pub task_id : String
  pub branch_name : String
  pub build_id : String
  pub repo_id : String
  pub org_id : String
  pub git_provider : String
  pub private_repo : Bool
  pub event_type : String
  pub diff : String
  pub pull_request_number : ℤ
  pub commits : List CommitChangeList
  pub tas_file_name : String
  pub locators : String
  pub locator_address : String
  pub parent_commit_coverage_exists : Bool
  pub license_tier : String
  pub collect_coverage : Bool
  pub task_type : String

-- Times are numbers of nanoseconds; 0 is the zero time.
pub record TaskPayload : Type 0 where
  pub task_id : String
  pub status : String
  pub repo_slug : String
  pub repo_link : String
  pub repo_id : String
  pub org_id : String
  pub git_provider : String
  pub commit_id : String
  pub build_id : String
  pub start_time : ℕ
  pub end_time : ℕ
  pub remark : String
  pub type : String

pub record Oauth : Type 0 where
  pub access_token : String
  pub expiry : ℕ
  pub refresh_token : String
  pub type : String
