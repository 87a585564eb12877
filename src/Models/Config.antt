-- ===== src/Models/Config.antt =====
-- The records of the yaml configuration, pkg/core/models.go.
-- The percentages of the coverage threshold are floating point in the source; nothing computes with
-- them, and they are kept as the texts that were written.
use test_at_scale.Prelude.{String, Bool, true, false, List, [], Option, none, Dict}
use test_at_scale.Models.Int.{ℤ, pos}

abbrev pub internal : String
internal = "internal"

abbrev pub xsmall : String
xsmall = "xsmall"

abbrev pub small : String
small = "small"

abbrev pub medium : String
medium = "medium"

abbrev pub large : String
large = "large"

abbrev pub xlarge : String
xlarge = "xlarge"

abbrev pub file_split : String
file_split = "file"

abbrev pub test_split : String
test_split = "test"

pub record CoverageThreshold : Type 0 where
  pub branches : String
  pub lines : String
  pub functions : String
  pub statements : String
  pub per_file : Bool

-- `new(core.CoverageThreshold)`
abbrev pub no_threshold : CoverageThreshold
no_threshold = record {
  branches = "0";
  lines = "0";
  functions = "0";
  statements = "0";
  per_file = false;
}

pub record Cache : Type 0 where
  pub key : String
  pub paths : List String

pub record Run : Type 0 where
  pub commands : List String
  pub env_map : Option (Dict String)

pub record Merge : Type 0 where
  pub patterns : List String
  pub env_map : Option (Dict String)

pub record TasConfig : Type 0 where
  pub smart_run : Bool
  pub framework : String
  pub blocklist : List String
  pub postmerge : Option Merge
  pub premerge : Option Merge
  pub cache : Option Cache
  pub prerun : Option Run
  pub postrun : Option Run
  pub parallelism : ℤ
  pub split_mode : String
  pub skip_cache : Bool
  pub config_file : String
  pub coverage_threshold : Option CoverageThreshold
  pub tier : String
  pub node_version : String
  pub container_image : String
  pub framework_version : ℤ
  pub version : String

pub record SubModule : Type 0 where
  pub name : String
  pub path : String
  pub patterns : List String
  pub framework : String
  pub blocklist : List String
  pub prerun : Option Run
  pub postrun : Option Run
  pub run_prerun_every_time : Bool
  pub parallelism : ℤ
  pub config_file : String

pub record MergeV2 : Type 0 where
  pub pre_run : Option Run
  pub sub_modules : List SubModule
  pub env_map : Option (Dict String)

pub record TasConfigV2 : Type 0 where
  pub smart_run : Bool
  pub cache : Option Cache
  pub tier : String
  pub post_merge : Option MergeV2
  pub pre_merge : Option MergeV2
  pub skip_cache : Bool
  pub coverage_threshold : Option CoverageThreshold
  pub parallelism : ℤ
  pub version : String
  pub split_mode : String
  pub container_image : String
  pub node_version : String

-- The values that `yaml.Unmarshal` starts from: what the file does not set stays so.
abbrev pub default_config : String → TasConfig
default_config version = record {
  smart_run = true;
  framework = "";
  blocklist = [];
  postmerge = none;
  premerge = none;
  cache = none;
  prerun = none;
  postrun = none;
  parallelism = pos 0;
  split_mode = test_split;
  skip_cache = false;
  config_file = "";
  coverage_threshold = none;
  tier = small;
  node_version = "";
  container_image = "";
  framework_version = pos 0;
  version = version;
}

abbrev pub default_config_v2 : TasConfigV2
default_config_v2 = record {
  smart_run = true;
  cache = none;
  tier = small;
  post_merge = none;
  pre_merge = none;
  skip_cache = false;
  coverage_threshold = none;
  parallelism = pos 0;
  version = "";
  split_mode = test_split;
  container_image = "";
  node_version = "";
}
