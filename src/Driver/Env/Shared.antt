-- ===== src/Driver/Env/Shared.antt =====
-- What the submodules of one configuration see of each other's variables, pkg/driver/driver_v2.go.
use test_at_scale.Prelude.{
  String, ◌≡◌, refl, ap, ◌∙◌, Bool, Option, some, Dict, lookup, overlay, IsUnique, or_else,
  lookup-overlay, lookup-insert, str_eq, if◌then◌else◌, Bool-cases, inl, inr,
}
use test_at_scale.Errs.{ok}
use test_at_scale.Models.{TasConfigV2, MergeV2, SubModule, event_pull_request}
use test_at_scale.Driver.Env.{
  get_env, env_over, run_env, merge_of, with_merge, module_path, env_of_merge, env_in_merge,
  env_result,
}

-- The variables of a submodule over a base: its path, else its own variables, else the base.
abbrev pub IsEnv : (String → Bool) → SubModule → (String → Option String) → Dict String → Type 0
IsEnv root m base env =
    (key : String)
    → lookup key env ≡ (
        if str_eq module_path key
        then some (if root m.path then "" else m.path)
        else or_else (lookup key (run_env m.prerun)) (base key))

env_over-IsEnv :
    (root : String → Bool) (base : Dict String) (m : SubModule)
    → IsUnique (run_env m.prerun)
    → IsEnv root m (λ key. lookup key base) (env_over root base m)
unfolding env_over
env_over-IsEnv root base m u key =
    lookup-insert module_path key (if root m.path then "" else m.path)
      (overlay base (run_env m.prerun))
    ∙ ap (λ x. if str_eq module_path key then some (if root m.path then "" else m.path) else x)
        (lookup-overlay key base (run_env m.prerun) u)

merge_of-with_merge :
    (event_type : String) (config : TasConfigV2) (merge : MergeV2)
    → merge_of event_type (with_merge event_type config merge) ≡ some merge
merge_of-with_merge event_type config merge =
    elim (Bool-cases (str_eq event_type event_pull_request)) [
      | inl pull ↦ rw pull refl
      | inr push ↦ rw push refl
    ]

get_env-of :
    (root : String → Bool) (event_type : String) (config : TasConfigV2) (merge : MergeV2)
    (o : Option (Dict String)) (m : SubModule)
    → merge_of event_type config ≡ some merge
    → merge.env_map ≡ o
    → get_env root event_type config m ≡ env_result event_type config (env_in_merge root m merge o)
unfolding get_env
get_env-of root event_type config merge o m merged set =
    ap (env_of_merge root event_type config m) merged
    ∙ ap (λ x. env_result event_type config (env_in_merge root m merge x)) set

-- When the file sets variables for the event, the variables of a second submodule lie over those of
-- the first: what the first one's pre-run set and the second one does not set itself, the second sees.
second-IsEnv_sees_first :
    (root : String → Bool) (event_type : String) (config : TasConfigV2) (merge : MergeV2)
    (base : Dict String) (first second : SubModule)
    → merge_of event_type config ≡ some merge
    → merge.env_map ≡ some base
    → IsUnique (run_env first.prerun)
    → IsUnique (run_env second.prerun)
    → (config' config'' : TasConfigV2) × (env env' : Dict String) × (get_env root event_type config
          first
        ≡ ok (config', env))
      × (get_env root event_type config' second ≡ ok (config'', env'))
      × IsEnv root first (λ key. lookup key base) env
      × IsEnv root second (λ key. lookup key env) env'
second-IsEnv_sees_first root event_type config merge base first second merged set u v =
    let env = env_over root base first in
    let merge' = record merge { env_map = some env } in
    let config' = with_merge event_type config merge' in
    let merge'' = record merge { env_map = some (env_over root env second) } in
    (
      config',
      with_merge event_type config' merge'',
      env,
      env_over root env second,
      get_env-of root event_type config merge (some base) first merged set,
      get_env-of root event_type config' merge' (some env) second
          (merge_of-with_merge event_type config merge') refl,
      env_over-IsEnv root base first u,
      env_over-IsEnv root env second v,
    )
