-- ===== src/Config/Tests.antt =====
-- A configuration with two submodules, and the results at concrete inputs.
use test_at_scale.Prelude.{String, ◌⧺◌, ◌≤◌, ◌↔◌, ◌≡◌, refl, false, none, some, [], ◌∷◌, arith}
use test_at_scale.Errs.{ok}
use test_at_scale.Models.{
  pos, TasConfigV2, MergeV2, SubModule, default_config_v2, event_pull_request, small, medium,
}
use test_at_scale.Format.{decimal}
use test_at_scale.Utils.{get_version}
use test_at_scale.Utils.Version.Reads.{get_version-major}
use test_at_scale.Config.Invalid.{ErrInvalidConf, invalid_conf, error_text}
use test_at_scale.Config.{Yaml, content, validate_yml_v2}
use test_at_scale.Prelude.{String}
use test_at_scale.Prelude.{Option}
use test_at_scale.Errs.{Err, err}
use test_at_scale.Utils.{before_dot, validate_sub_module}
use test_at_scale.Format.{atoi, digits, digits_from}
use test_at_scale.Config.Download.{get_tas_config, after_load}
use test_at_scale.Config.Download.Answers.{get_tas_config-ok}
use test_at_scale.Config.{
  second, get_version_of, load_and_validate, missing_merge_v2, validate_struct_v2, check_event_v2,
  check_merge,
}
use test_at_scale.Config.Tier.{is_valid_license_tier}
use test_at_scale.Config.SubModules.{check_sub_modules}
use test_at_scale.Config.Tier.{tier_rank}
use test_at_scale.Config.Accepted.{IsEventReady, with_threshold, validate_yml_v2-ok}

abbrev pub module_a : SubModule
module_a = record {
  name = "a";
  path = "./a";
  patterns = "a/**" ∷ [];
  framework = "jest";
  blocklist = [];
  prerun = none;
  postrun = none;
  run_prerun_every_time = false;
  parallelism = pos 0;
  config_file = "";
}

abbrev pub two_modules : MergeV2
two_modules = record {
  pre_run = none;
  sub_modules = module_a ∷ record module_a { name = "b"; path = "./b" } ∷ [];
  env_map = none;
}

abbrev pub sample : TasConfigV2
sample = record default_config_v2 { version = "2.0.1"; pre_merge = some two_modules }

-- A decoder that finds the sample in every text.
abbrev pub sample_yaml : Yaml
sample_yaml = record {
  read_file = content;
  decode_version = λ _. ok "2.0.1";
  decode = λ start _. ok start;
  decode_v2 = λ _ _. ok sample;
  invalid = λ _. none;
  invalid_v2 = λ _. none;
}

validate_yml_v2-ok_example :
    (validate_yml_v2 sample_yaml "" event_pull_request medium ".tas.yml"
      ≡ ok (with_threshold sample))
    ↔ (IsEventReady event_pull_request sample × (tier_rank small ≤ tier_rank medium))
validate_yml_v2-ok_example =
    validate_yml_v2-ok sample_yaml "" event_pull_request medium ".tas.yml" sample refl refl

get_version-major_example : get_version (λ _. ok "2.0.1") "" ≡ ok (pos 2)
unfolding decimal
get_version-major_example = get_version-major (λ _. ok "2.0.1") "" "0.1" 2 (omega arith) refl

reads : get_version_of sample_yaml "f" ≡ ok (pos 2)
unfolding get_version_of get_version decimal before_dot atoi digits digits_from
reads = refl

refuses :
    load_and_validate sample_yaml (pos 2) "f" "push" medium ".tas.yml"
    ≡ err (missing_merge_v2 "postMerge" ".tas.yml")
unfolding load_and_validate validate_yml_v2 validate_struct_v2 check_event_v2 check_merge
refuses = refl

downloads :
    get_tas_config sample_yaml (λ _. none) (ok "f") event_pull_request medium ".tas.yml"
    ≡ ok (record { version = pos 2; tas_config = second (with_threshold sample) })
unfolding get_tas_config after_load get_version_of get_version before_dot atoi digits digits_from
    load_and_validate validate_yml_v2 validate_struct_v2 check_event_v2 check_merge
    check_sub_modules validate_sub_module is_valid_license_tier tier_rank
downloads = refl

get_tas_config-ok_example :
    (path : String) × (ok "f" ≡ ok path)
    × (get_version_of sample_yaml path ≡ ok (pos 2))
    × (load_and_validate sample_yaml (pos 2) path event_pull_request medium ".tas.yml"
        ≡ ok (second (with_threshold sample)))
    × (◌≡◌ {A = Option Err} none none)
get_tas_config-ok_example =
    get_tas_config-ok sample_yaml (λ _. none) (ok "f") event_pull_request medium ".tas.yml"
      (record { version = pos 2; tas_config = second (with_threshold sample) }) downloads

pub refuses_push :
    load_and_validate sample_yaml (pos 2) ".tas.yml" "push" small ".tas.yml"
    ≡ err (missing_merge_v2 "postMerge" ".tas.yml")
unfolding load_and_validate validate_yml_v2 validate_struct_v2 check_event_v2 check_merge
refuses_push = refl

rejects :
    (e : ErrInvalidConf String) × (invalid_conf ".tas.yml"
        (some (record { field = "tier"; value = "huge" } ∷ []))
      ≡ some e)
    × (error_text (λ value. value) e
        ≡ some (
            "Invalid values provided for the following fields in the `.tas.yml` configuration file: \n"
            ⧺ "tier: huge\n"))
unfolding invalid_conf error_text
rejects = (_, refl, refl)
