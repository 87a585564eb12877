-- ===== src/Models/Pod.antt =====
-- pkg/core/runner.go: containers, what they are given and how they ended.
-- A specification counts cpus in halves, since the smallest has half a core, and memory in MiB.
use test_at_scale.Prelude.{ℕ, String, Bool, Option, none, some, List, Dict, str_eq, if◌then◌else◌}
use test_at_scale.Errs.{CodedErr}
use test_at_scale.Models.Config.{internal, xsmall, small, medium, large, xlarge}

pub record Specs : Type 0 where
  pub half_cpus : ℕ
  pub ram : ℕ

abbrev pub specs : ℕ → ℕ → Specs
specs half_cpus ram = record { half_cpus = half_cpus; ram = ram }

-- `core.TierOpts`
unfoldable pub tier_opts : String → Option Specs
tier_opts tier =
    if str_eq tier internal
    then some (specs 1 256)
    else if str_eq tier xsmall
    then some (specs 2 2048)
    else if str_eq tier small
    then some (specs 4 4096)
    else if str_eq tier medium
    then some (specs 8 8192)
    else if str_eq tier large
    then some (specs 16 16384)
    else if str_eq tier xlarge
    then some (specs 32 32768)
    else none

abbrev pub or_specs : Specs → Option Specs → Specs
or_specs absent none = absent
or_specs absent (some s) = s

pub record ContainerStatus : Type 0 where
  pub done : Bool
  pub error : CodedErr

pub record ContainerImageConfig : Type 0 where
  pub auth_registry : String
  pub image : String
  pub mode : String
  pub pull_policy : String

abbrev pub nucleus_pod : String
nucleus_pod = "nucleus"

abbrev pub coverage_pod : String
coverage_pod = "coverage"

pub record RunnerOptions : Type 0 where
  pub container_id : String
  pub docker_image : String
  pub label : Dict String
  pub container_name : String
  pub container_args : List String
  pub host_volume_path : String
  pub env : List String
  pub pod_type : String
  pub tier : String
