-- ===== src/Runner/Host.antt =====
-- pkg/runner/docker/config.go: volumes, mounts and resources of a container.
-- The folder that `getContainerHostConfiguration` makes for a repository is left out: its error is
-- only logged.
use test_at_scale.Prelude.{
  ℕ, ◌*◌, String, ◌⧺◌, Bool, true, ◌||◌, Option, none, some, List, [], ◌∷◌, lookup, str_eq,
  if◌then◌else◌,
}
use test_at_scale.Models.{
  RunnerOptions, Specs, specs, tier_opts, or_specs, nucleus_pod, coverage_pod,
}

-- A read of a Go map of texts: the empty text where the key is missing.
abbrev pub text_or_empty : Option String → String
text_or_empty none = ""
text_or_empty (some s) = s

pub record HostConfig : Type 0 where
  pub mounts : List (String × String)
  pub auto_remove : Bool
  pub memory : ℕ
  pub nano_cpus : ℕ

unfoldable pub volume_name : RunnerOptions → String
volume_name r = "tas-build" ⧺ "-" ⧺ text_or_empty (lookup "build-id" r.label)

abbrev small_specs : Specs
small_specs = specs 4 4096

-- `getSpecs`: an unknown tier is given what the small one has.
unfoldable pub get_specs : String → Specs
get_specs tier = or_specs small_specs (tier_opts tier)

abbrev default_true : Option Bool → Bool
default_true none = true
default_true (some b) = b

-- `getContainerHostConfiguration`; `auto` is the environment's AutoRemove, if it can be read.
unfoldable pub host_config : Option Bool → RunnerOptions → HostConfig
host_config auto r = record {
  mounts =
      (volume_name r, "/vault/secrets")
      ∷ (if str_eq r.pod_type nucleus_pod || str_eq r.pod_type coverage_pod
          then (volume_name r, "/workspace-cache") ∷ []
          else []);
  auto_remove = default_true auto;
  memory = (get_specs r.tier).ram * 1048576;
  nano_cpus = (get_specs r.tier).half_cpus * 500000000;
}
