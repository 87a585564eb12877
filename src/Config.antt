-- ===== src/Config.antt =====
-- pkg/tasconfigmanager/setup.go: loading and validating the tas configuration, with the functions
-- `ValidateStructTASYmlV1`, `ValidateStructTASYmlV2` and `ValidateStructTASYml` of pkg/utils/utils.go.
-- `Yaml` is the file system, `yaml.Unmarshal` and the validator of struct tags, which are not under
-- the source: `decode` fills the given start value from a text, and `invalid` is the error of the
-- validator, if any.
pub mod SubModules
pub mod Tier
pub mod Accepted
pub mod Invalid
pub mod Download
pub mod Tests
unfoldable pub use SubModules.{check_sub_modules, duplicate}
unfoldable pub use Tier.{tier_rank, is_valid_license_tier}
use test_at_scale.Prelude.{
  ℕ, String, ◌⧺◌, Bool, true, false, Option, none, some, List, [], ◌∷◌, str_eq, if◌then◌else◌,
  is_some, not,
}
use test_at_scale.Format.{decimal}
use test_at_scale.Errs.{Err, error, Result, ok, err, panicked, ◌>>=◌, ◌>>◌, check, refuse_if}
use test_at_scale.Models.{
  ℤ, pos, ltb_ℤ, eqb_ℤ, TasConfig, TasConfigV2, MergeV2, SubModule, default_config,
  default_config_v2, no_threshold, CoverageThreshold, event_push, event_pull_request,
}
use test_at_scale.Utils.{get_version}

-- What `os.ReadFile` gives: a text, ErrNotExist or another error.
pub data FileRead : Type 0 where
  content : String → FileRead
  missing unreadable : FileRead

pub record Yaml : Type 0 where
  pub read_file : String → FileRead
  pub decode_version : String → Result String
  pub decode : TasConfig → String → Result TasConfig
  pub decode_v2 : TasConfigV2 → String → Result TasConfigV2
  pub invalid : TasConfig → Option Err
  pub invalid_v2 : TasConfigV2 → Option Err

-- The two types behind the `interface{}` of `LoadAndValidate`.
pub data AnyConfig : Type 0 where
  first : TasConfig → AnyConfig
  second : TasConfigV2 → AnyConfig

abbrev pub default_version : String
default_version = "1.0.0"

abbrev invalid_format : String → Err
invalid_format file = error (
    "`" ⧺ file ⧺ "` configuration file contains invalid format. Please correct the `" ⧺ file
    ⧺ "` file")

-- An error of `yaml.Unmarshal` is replaced by the program's own.
abbrev decoded {ℓ} : {A : Type ℓ} → String → Result A → Result A
decoded file (ok a) = ok a
decoded file (err e) = err (invalid_format file)
decoded file panicked = panicked

abbrev or_no_threshold : Option CoverageThreshold → Option CoverageThreshold
or_no_threshold none = some no_threshold
or_no_threshold (some t) = some t

abbrev missing_merge : String → String → Err
missing_merge field file =
    error ("`" ⧺ field ⧺ "` test cases are not configured in `" ⧺ file ⧺ "` configuration file.")

abbrev pub missing_merge_v2 : String → String → Err
missing_merge_v2 field file = error ("`" ⧺ field ⧺ "` is missing in tas configuration file " ⧺ file)

-- One case of the switch of `validateYMLV2`.
unfoldable pub check_merge : String → String → Option MergeV2 → Result (Unit {0})
check_merge field file none = err (missing_merge_v2 field file)
check_merge field file (some merge) = check_sub_modules field file [] merge.sub_modules

-- The switch of `validateYMLV1` and that of `validateYMLV2`: other events are not checked.
unfoldable pub check_event : String → String → TasConfig → Result (Unit {0})
check_event event_type file config =
    if str_eq event_type event_pull_request
    then refuse_if (not (is_some config.premerge)) (missing_merge "preMerge" file)
    else if str_eq event_type event_push
    then refuse_if (not (is_some config.postmerge)) (missing_merge "postMerge" file)
    else ok tt

unfoldable pub check_event_v2 : String → String → TasConfigV2 → Result (Unit {0})
check_event_v2 event_type file config =
    if str_eq event_type event_pull_request
    then check_merge "preMerge" file config.pre_merge
    else if str_eq event_type event_push
    then check_merge "postMerge" file config.post_merge
    else ok tt

abbrev loaded : FileRead → String → Result String
loaded (content text) file = ok text
loaded missing file = err (error ("Configuration file not found at path: " ⧺ file))
loaded unreadable file = err (error ("Error while reading configuration file at path: " ⧺ file))

module _ (yaml : Yaml) where
  pub validate_struct : String → String → Result TasConfig
  validate_struct text file = do
    config ← decoded file (yaml.decode (default_config default_version) text)
    check (yaml.invalid config)
    ok config

  pub validate_struct_v2 : String → String → Result TasConfigV2
  validate_struct_v2 text file = do
    config ← decoded file (yaml.decode_v2 default_config_v2 text)
    check (yaml.invalid_v2 config)
    ok config

  -- `ValidateStructTASYml`, which accepts versions 1 and 2 alone.
  pub validate_struct_any : String → String → Result AnyConfig
  validate_struct_any text file = do
    version ← get_version yaml.decode_version text
    if eqb_ℤ version (pos 1)
        then (do config ← validate_struct text file; ok (first config))
        else if eqb_ℤ version (pos 2)
        then (do config ← validate_struct_v2 text file; ok (second config))
        else err (error ("version " ⧺ decimal version ⧺ " is not supported "))

  pub validate_yml : String → String → String → String → Result TasConfig
  validate_yml text event_type license_tier file = do
    config ← validate_struct text file
    let config' = record config { coverage_threshold = or_no_threshold config.coverage_threshold }
    check_event event_type file config'
    is_valid_license_tier config'.tier license_tier
    ok config'

  pub validate_yml_v2 : String → String → String → String → Result TasConfigV2
  validate_yml_v2 text event_type license_tier file = do
    config ← validate_struct_v2 text file
    let config' = record config { coverage_threshold = or_no_threshold config.coverage_threshold }
    check_event_v2 event_type file config'
    is_valid_license_tier config'.tier license_tier
    ok config'

  -- Every version from 2 on is read as version 2.
  pub load_and_validate : ℤ → String → String → String → String → Result AnyConfig
  load_and_validate version path event_type license_tier path_in_repo = do
    text ← loaded (yaml.read_file path) path_in_repo
    if ltb_ℤ version (pos 2)
        then (do config ← validate_yml text event_type license_tier path_in_repo; ok (first config))
        else (do
          config ← validate_yml_v2 text event_type license_tier path_in_repo
          ok (second config))

  pub get_version_of : String → Result ℤ
  get_version_of path = do
    text ← loaded (yaml.read_file path) path
    get_version yaml.decode_version text
