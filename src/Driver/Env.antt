-- ===== src/Driver/Env.antt =====
-- `getEnv` and `GetSubmoduleBasedDiff` of pkg/driver/driver_v2.go.
-- A map that the configuration file sets is the map that getEnv writes to, so it returns the configuration
-- as well; without one it makes a new map. `root` tells whether `path.Join` of the repository and a
-- path is the repository.
pub mod Shared
use test_at_scale.Prelude.{
  ℕ, String, ◌⧺◌, Bool, true, false, not, Option, none, some, List, [], ◌∷◌, Dict, lookup, insert,
  overlay, trim_prefix, has_suffix, str_eq, if◌then◌else◌,
}
use test_at_scale.Errs.{Result, ok, err, panicked}
use test_at_scale.Models.{Payload, TasConfigV2, MergeV2, SubModule, Run, event_pull_request}

abbrev pub module_path : String
module_path = "MODULE_PATH"

abbrev pub run_env : Option Run → Dict String
run_env none = []
run_env (some run) = elim run.env_map [ none ↦ [] | some env ↦ env ]

-- The map that the submodule's variables are written over `base`.
unfoldable pub env_over : (String → Bool) → Dict String → SubModule → Dict String
env_over root base m =
    insert module_path (if root m.path then "" else m.path) (overlay base (run_env m.prerun))

abbrev pub env_in_merge :
    (String → Bool) → SubModule → MergeV2 → Option (Dict String) → MergeV2 × Dict String
env_in_merge root m merge none = (merge, env_over root [] m)
env_in_merge root m merge (some base) =
    (record merge { env_map = some (env_over root base m) }, env_over root base m)

abbrev pub merge_of : String → TasConfigV2 → Option MergeV2
merge_of event_type config =
    if str_eq event_type event_pull_request then config.pre_merge else config.post_merge

abbrev pub with_merge : String → TasConfigV2 → MergeV2 → TasConfigV2
with_merge event_type config merge =
    if str_eq event_type event_pull_request
    then record config { pre_merge = some merge }
    else record config { post_merge = some merge }

abbrev pub env_result :
    String → TasConfigV2 → MergeV2 × Dict String → Result (TasConfigV2 × Dict String)
env_result event_type config (merge, env) = ok (with_merge event_type config merge, env)

abbrev pub env_of_merge :
    (String → Bool)
    → String
    → TasConfigV2
    → SubModule
    → Option MergeV2
    → Result (TasConfigV2 × Dict String)
env_of_merge root event_type config m none = panicked
env_of_merge root event_type config m (some merge) =
    env_result event_type config (env_in_merge root m merge merge.env_map)

unfoldable pub get_env :
    (String → Bool) → String → TasConfigV2 → SubModule → Result (TasConfigV2 × Dict String)
unfolding env_over
get_env root event_type config m =
    env_of_merge root event_type config m (merge_of event_type config)

-- The prefix that is cut from the files of a submodule.
unfoldable pub directory_prefix : String → String
directory_prefix path =
    let trimmed = trim_prefix path "./" in
    if not (has_suffix trimmed "/") then trimmed ⧺ "/" else trimmed

unfoldable pub relative_files : String → Dict ℕ → Dict ℕ → Dict ℕ
relative_files prefix new_diff [] = new_diff
relative_files prefix new_diff ((file, value) ∷ diff) =
    relative_files prefix (insert (trim_prefix file prefix) value new_diff) diff

unfoldable pub get_submodule_based_diff : Dict ℕ → String → Dict ℕ
unfolding relative_files directory_prefix
get_submodule_based_diff diff sub_module_path =
    relative_files (directory_prefix sub_module_path) [] diff
