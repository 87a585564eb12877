-- ===== src/Loading/Validated.antt =====
-- Which settings of viper let synapse start, config/loader.go.
use test_at_scale.Prelude.{
  String, ◌≡◌, ◌≢◌, ◌↔◌, refl, sym, ap, ◌∙◌, Bool, true, false, none, [], ◌∷◌, Dict, str_eq, eq_iff,
  arith, Option, some,
}
use test_at_scale.Errs.{Err, Result, ok, err, panicked, check, ◌>>◌}
use test_at_scale.Loading.{Value, Values, Settings, get_tags, zero_values}
use test_at_scale.Loading.Types.{
  synapse_fields, synapse_sources, nucleus_fields, Viper, populate, load_synapse_config, secret_key,
  mode, with_secrets, load_repo_secrets, validate_cfg, validated,
}
use test_at_scale.Loading.Merged.{merged, first_other, or_else, given_string}
use test_at_scale.Loading.Merged.Walk.{recursively_set-merged}

populate_synapse :
    (s : Settings)
    → populate s synapse_fields
      ≡ ok (merged s ("" ∷ []) synapse_fields (zero_values synapse_fields))
unfolding populate first_other get_tags
populate_synapse s = recursively_set-merged s "" synapse_fields (zero_values synapse_fields)

pub populate_nucleus :
    (s : Settings)
    → populate s nucleus_fields
      ≡ ok (merged s ("" ∷ []) nucleus_fields (zero_values nucleus_fields))
unfolding populate first_other get_tags
populate_nucleus s = recursively_set-merged s "" nucleus_fields (zero_values nucleus_fields)

secret_key-merged :
    (s : Settings)
    → secret_key (merged s ("" ∷ []) synapse_fields (zero_values synapse_fields))
      ≡ or_else (given_string s "Lambdatest.SecretKey") ""
unfolding Value zero_values merged get_tags
secret_key-merged s = refl

mode-merged :
    (s : Settings)
    → mode (merged s ("" ∷ []) synapse_fields (zero_values synapse_fields))
      ≡ or_else (given_string s "ContainerRegistry.Mode") ""
unfolding Value zero_values merged get_tags
mode-merged s = refl

pub given_or_empty :
    (s : Settings) (key : String) → or_else (given_string s key) "" ≡ s.get_string key
given_or_empty s key = ground (arith, eq_iff (s.get_string key) "")

secret_key-with_secrets :
    (loaded : Dict (Dict String)) (cfg : Values synapse_fields)
    → secret_key (with_secrets loaded cfg) ≡ secret_key cfg
unfolding Value
secret_key-with_secrets loaded cfg = refl

mode-with_secrets :
    (loaded : Dict (Dict String)) (cfg : Values synapse_fields)
    → mode (with_secrets loaded cfg) ≡ mode cfg
unfolding Value
mode-with_secrets loaded cfg = refl

pub validated-accepts :
    (key registry_mode : String)
    → (validated key registry_mode ≡ none) ↔ ((key ≢ "") × (registry_mode ≢ ""))
validated-accepts key registry_mode = (
  λ h. (λ e. ground (arith, eq_iff key ""), λ e. ground (arith, eq_iff registry_mode "")),
  λ p. by_tests (str_eq key "") (str_eq registry_mode "") refl refl p,
)
  where
    by_tests :
        (no_key no_mode : Bool)
        → str_eq key "" ≡ no_key
        → str_eq registry_mode "" ≡ no_mode
        → (key ≢ "") × (registry_mode ≢ "")
        → validated key registry_mode ≡ none
    by_tests true no_mode e f p = absurd (p.0 ((eq_iff key "").0 e))
    by_tests false true e f p = absurd (p.1 ((eq_iff registry_mode "").0 f))
    by_tests false false e f p = rw (e, f)

validate_cfg-merged :
    (viper : Viper) (decode : String → Dict (Dict String)) (s : Settings)
    → validate_cfg (
        load_repo_secrets viper decode
          (merged s ("" ∷ []) synapse_fields (zero_values synapse_fields)))
      ≡ validated (s.get_string "Lambdatest.SecretKey") (s.get_string "ContainerRegistry.Mode")
unfolding validate_cfg load_repo_secrets merged
validate_cfg-merged viper decode s =
    ap
      (λ key. validated key (mode (merged s ("" ∷ []) synapse_fields (zero_values synapse_fields))))
      (secret_key-merged s ∙ given_or_empty s "Lambdatest.SecretKey")
    ∙ ap (validated (s.get_string "Lambdatest.SecretKey"))
        (mode-merged s ∙ given_or_empty s "ContainerRegistry.Mode")

-- Synapse loads its configuration whenever the flags can be bound, and, whatever its repository
-- secrets are, accepts it exactly if viper has texts that are not empty under
-- "Lambdatest.SecretKey" and "ContainerRegistry.Mode".
pub validate_cfg-loaded :
    (viper : Viper) (decode : String → Dict (Dict String))
    → viper.bind_flags ≡ none
    → (cfg : Values synapse_fields) × (load_synapse_config viper ≡ ok cfg)
      × ((validate_cfg (load_repo_secrets viper decode cfg) ≡ none) ↔ (
          ((viper.settings (synapse_sources viper.config_flag)).get_string "Lambdatest.SecretKey"
            ≢ "")
          × ((viper.settings (synapse_sources viper.config_flag)).get_string
                "ContainerRegistry.Mode"
              ≢ "")))
unfolding load_synapse_config
validate_cfg-loaded viper decode bound =
    let s : Settings = viper.settings (synapse_sources viper.config_flag) in
    (
      merged s ("" ∷ []) synapse_fields (zero_values synapse_fields),
      rw bound (populate_synapse s),
      (
        λ h. (validated-accepts _ _).0 (sym (validate_cfg-merged viper decode s) ∙ h),
        λ p. validate_cfg-merged viper decode s ∙ (validated-accepts _ _).1 p,
      ),
    )

pub ok-inj {ℓ} : {A : Type ℓ} (a : A) {x y : A} → ◌≡◌ {A = Result A} (ok x) (ok y) → x ≡ y
ok-inj {A} a e = ap (λ r. value_or r) e
  where
    value_or : Result A → A
    value_or (ok x) = x
    value_or (err e) = a
    value_or panicked = a

bound_and_merged :
    (s : Settings) (o : Option Err) (cfg : Values synapse_fields)
    → (check o >> populate s synapse_fields) ≡ ok cfg
    → (o ≡ none) × (merged s ("" ∷ []) synapse_fields (zero_values synapse_fields) ≡ cfg)
bound_and_merged s none cfg h = (refl, ok-inj cfg (sym (populate_synapse s) ∙ h))
bound_and_merged s (some e) cfg h = cc

-- What a configuration that was loaded says of viper, and how it is validated.
pub load_synapse_config-ok :
    (viper : Viper) (decode : String → Dict (Dict String)) (cfg : Values synapse_fields)
    → load_synapse_config viper ≡ ok cfg
    → let s = viper.settings (synapse_sources viper.config_flag) in
      (viper.bind_flags ≡ none)
      × (validate_cfg (load_repo_secrets viper decode cfg)
          ≡ validated (s.get_string "Lambdatest.SecretKey") (s.get_string "ContainerRegistry.Mode"))
unfolding load_synapse_config
load_synapse_config-ok viper decode cfg h =
    let s : Settings = viper.settings (synapse_sources viper.config_flag) in
    let (bound, same) = bound_and_merged s viper.bind_flags cfg h in
    (
      bound,
      ap (λ c. validate_cfg (load_repo_secrets viper decode c)) (sym same)
          ∙ validate_cfg-merged viper decode s,
    )
