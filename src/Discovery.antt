-- ===== src/Discovery.antt =====
-- pkg/testdiscoveryservice/testdiscovery.go: which arguments the test runner of a framework is given.
-- The runner is a parameter, as is the result that it posts to the server of nucleus, which the service
-- receives from a channel. `SendResult` is one request.
pub mod Selected
pub mod Tests
use test_at_scale.Prelude.{
  ℕ, String, Bool, true, not, ◌&&◌, ◌||◌, Option, List, [], ◌∷◌, ◌++◌, Dict, contains_key, any,
  has_suffix, ◌==◌, length, if◌then◌else◌,
}
use test_at_scale.Errs.{Err, Result, ok, err, panicked, check, ◌>>=◌, ◌>>◌}
use test_at_scale.Models.{DiscoveyArgs, DiscoveryResult, file_removed}
use test_at_scale.Utils.{get_config_file_name, get_args, framework_runner}
use test_at_scale.Command.{Shell, get_env_variables}

pub record Runner : Type 0 where
  pub test_env : Bool
  pub glob : String → List String
  pub shell : Shell
  pub run : String → List String → List String → String → Option Err
  pub received : String → List String → DiscoveryResult

unfoldable pub should_impact_all : Bool → String → Dict ℕ → Bool
should_impact_all smart_run config_file_path diff =
    not smart_run
    || contains_key config_file_path diff
    || any (λ entry. has_suffix entry.0 "package.json") diff

-- The changed files, but for the removed ones.
unfoldable pub diff_args : Dict ℕ → List String
diff_args [] = []
diff_args ((k, v) ∷ diff) =
    let rest = diff_args diff in if not (v == file_removed) then "--diff" ∷ k ∷ rest else rest

-- An empty diff that exists is the flag alone.
unfoldable pub impact_args : Bool → Bool → Dict ℕ → List String
impact_args impact_all diff_exists diff =
    if impact_all
    then []
    else if (length diff == 0) && diff_exists
    then "--diff" ∷ []
    else diff_args diff

unfoldable pub discovery_args : DiscoveyArgs → String → List String
unfolding impact_args diff_args should_impact_all
discovery_args d config_file_path =
    get_args "discover" d.framework d.framework_version d.test_config_file d.test_pattern
    ++ impact_args (should_impact_all d.smart_run config_file_path d.diff) d.diff_exists d.diff

unfoldable pub discover : Runner → DiscoveyArgs → Result DiscoveryResult
unfolding discovery_args
discover runner d = do
  config_file_path ← get_config_file_name runner.test_env runner.glob d.payload.tas_file_name
  env ← get_env_variables runner.shell d.env_map d.secret_data
  check (runner.run (framework_runner d.framework) (discovery_args d config_file_path) env d.cwd)
  ok (runner.received (framework_runner d.framework) (discovery_args d config_file_path))
