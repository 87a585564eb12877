-- ===== src/Loading/Tests.antt =====
-- A configuration of synapse that viper has a secret key and a mode for.
use test_at_scale.Prelude.{◌≡◌, refl, true, none, [], ◌∷◌, str_eq, if◌then◌else◌}
use test_at_scale.Models.{pos}
use test_at_scale.Errs.{error, ok, err, refused}
use test_at_scale.Loading.{
  Value, Values, Settings, Fields, end, field, text, other, recursively_set, get_tags, each_tag,
}
use test_at_scale.Loading.Types.{Viper, plain, json_and_env}
use test_at_scale.Loading.Merged.{merged, first_other, result_of}
use test_at_scale.Loading.Merged.Walk.{recursively_set-merged}

abbrev settings : Settings
settings = record {
  get_int = λ key. pos 0;
  get_string = λ key.
      if str_eq key "Lambdatest.SecretKey"
      then "key"
      else if str_eq key "ContainerRegistry.Mode"
      then "public"
      else if str_eq key "BUILD_ID"
      then "build"
      else "";
  get_bool = λ key. true;
}

abbrev viper : Viper
viper = record {
  bind_flags = none;
  config_flag = "";
  settings = λ sources. settings;
  read_config = λ place. refused (error "no file");
}

-- Two keys of one field, of which the second has a value, and a field that cannot be set.
abbrev fields : Fields
fields = field (json_and_env "BuildID" "buildID" "BUILD_ID") text end

abbrev bad_fields : Fields
bad_fields = field (plain "Rate") (other "float64") end

abbrev before : Values fields
unfolding Value
before = ("", tt)

abbrev after : Values fields
unfolding Value
after = ("build", tt)

abbrev bad_before : Values bad_fields
unfolding Value
bad_before = (tt, tt)

build_id_is_set : recursively_set settings "" fields before ≡ ok after
unfolding recursively_set get_tags each_tag before after
build_id_is_set = refl

rate_is_refused :
    recursively_set settings "" bad_fields bad_before
    ≡ err (error "unexpected type detected ~ aborting: float64")
unfolding recursively_set get_tags each_tag bad_before
rate_is_refused = refl

recursively_set-merged_example :
    recursively_set settings "" fields before
    ≡ result_of (first_other fields) (merged settings ("" ∷ []) fields before)
recursively_set-merged_example = recursively_set-merged settings "" fields before
