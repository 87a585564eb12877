-- ===== src/Loading/Types.antt =====
-- The configurations that config/nucleusmodel.go and config/synapsemodel.go declare, as types for the
-- walk of config/parse.go, and config/loader.go, which fills them.
use test_at_scale.Prelude.{
  String, Bool, true, false, Option, none, some, List, [], ◌∷◌, Dict, str_eq, if◌then◌else◌,
}
use test_at_scale.Errs.{Err, error, Result, check, ◌>>◌, Reply, got, refused}
use test_at_scale.Loading.{
  integer, text, flag, mapping, struct, Fields, end, field, StructField, Value, Values, Settings,
  recursively_set, zero_values,
}

abbrev pub plain : String → StructField
plain name = record { name = name; tag = [] }

abbrev pub tagged : String → String → String → StructField
tagged name key value = record { name = name; tag = (key, value) ∷ [] }

abbrev pub json_and_env : String → String → String → StructField
json_and_env name json env = record { name = name; tag = ("json", json) ∷ ("env", env) ∷ [] }

-- `lumber.LoggingConfig`
abbrev pub logging_fields : Fields
logging_fields = field (plain "EnableConsole") flag (
    field (plain "ConsoleJSONFormat") flag (
      field (plain "ConsoleLevel") text (
        field (plain "EnableFile") flag (
          field (plain "FileJSONFormat") flag
            (field (plain "FileLevel") text (field (plain "FileLocation") text end))))))

abbrev pub azure_fields : Fields
azure_fields = field (tagged "ContainerName" "env" "CONTAINER_NAME") text (
    field (tagged "StorageAccountName" "env" "STORAGE_ACCOUNT") text
      (field (tagged "StorageAccessKey" "env" "STORAGE_ACCESS_KEY") text end))

-- The last fields of `NucleusConfig`, from `Env` on.
abbrev pub nucleus_rest : Fields
nucleus_rest = field (plain "Env") text (
    field (plain "Verbose") flag (
      field (tagged "Azure" "env" "AZURE") (struct azure_fields) (
        field (tagged "LocalRunner" "env" "local") flag (
          field (tagged "SynapseHost" "env" "synapsehost") text
            (field (tagged "SubModule" "json" "subModule") text end)))))

abbrev pub nucleus_modes : Fields
nucleus_modes = field (tagged "CoverageMode" "json" "coverage") flag (
    field (tagged "DiscoverMode" "json" "discover") flag (
      field (tagged "ExecuteMode" "json" "execute") flag (
        field (tagged "FlakyMode" "json" "flaky") flag (
          field (json_and_env "TaskID" "taskID" "TASK_ID") text (
            field (json_and_env "BuildID" "buildID" "BUILD_ID") text (
              field (tagged "Locators" "json" "locators") text
                (field (tagged "LocatorAddress" "json" "locatorAddress") text nucleus_rest)))))))

abbrev pub nucleus_fields : Fields
nucleus_fields = field (plain "Config") text (
    field (plain "Port") text (
      field (tagged "PayloadAddress" "json" "payloadAddress") text (
        field (tagged "CollectStats" "json" "collectStats") flag (
          field (tagged "ConsecutiveRuns" "json" "consecutiveRuns") integer (
            field (plain "LogFile") text
              (field (plain "LogConfig") (struct logging_fields) nucleus_modes))))))

abbrev pub lambdatest_fields : Fields
lambdatest_fields = field (plain "SecretKey") text end

abbrev pub git_fields : Fields
git_fields = field (plain "Token") text (field (plain "TokenType") text end)

abbrev pub registry_fields : Fields
registry_fields =
    field (plain "PullPolicy") text (
      field (plain "Mode") text (field (plain "Username") text (field (plain "Password") text end)))

abbrev pub synapse_fields : Fields
synapse_fields = field (plain "Name") text (
    field (plain "Config") text (
      field (plain "LogFile") text (
        field (plain "LogConfig") (struct logging_fields) (
          field (plain "Env") text (
            field (plain "Verbose") flag (
              field (plain "Lambdatest") (struct lambdatest_fields) (
                field (plain "Git") (struct git_fields) (
                  field (plain "ContainerRegistry") (struct registry_fields)
                    (field (plain "RepoSecrets") mapping end)))))))))

-- A default of config/default.go.
pub data Scalar : Type 0 where
  switched : Bool → Scalar
  written : String → Scalar

-- `log_file` stands for "nucleus.log" in `global.HomeDir`.
abbrev pub nucleus_defaults : String → Dict Scalar
nucleus_defaults log_file =
    ("LogConfig.EnableConsole", switched true)
    ∷ ("LogConfig.ConsoleJSONFormat", switched false)
    ∷ ("LogConfig.ConsoleLevel", written "debug")
    ∷ ("LogConfig.EnableFile", switched true)
    ∷ ("LogConfig.FileJSONFormat", switched true)
    ∷ ("LogConfig.FileLevel", written "debug")
    ∷ ("LogConfig.FileLocation", written log_file)
    ∷ ("Env", written "prod")
    ∷ ("Port", written "9876")
    ∷ ("Verbose", switched false)
    ∷ []

abbrev pub synapse_defaults : Dict Scalar
synapse_defaults =
    ("LogConfig.EnableConsole", switched true)
    ∷ ("LogConfig.ConsoleJSONFormat", switched false)
    ∷ ("LogConfig.ConsoleLevel", written "info")
    ∷ ("LogConfig.EnableFile", switched true)
    ∷ ("LogConfig.FileJSONFormat", switched true)
    ∷ ("LogConfig.FileLevel", written "debug")
    ∷ ("LogConfig.FileLocation", written "./mould.log")
    ∷ ("Env", written "prod")
    ∷ ("Verbose", switched false)
    ∷ []

-- Where viper looks for a file: at the path of the flag, or for a name in some directories.
pub data Place : Type 0 where
  at_path : String → Place
  named : String → List String → Place

abbrev pub place_of : String → String → List String → Place
place_of flagged name paths = if str_eq flagged "" then named name paths else at_path flagged

-- What viper was told before it was asked. The replacer of the keys is the same for both programs.
pub record Sources : Type 0 where
  pub env_prefix : String
  pub defaults : Dict Scalar
  pub place : Place

-- Viper and the files. `settings` reads the file if there is one; that it does not is only printed.
pub record Viper : Type 0 where
  pub bind_flags : Option Err
  pub config_flag : String
  pub settings : Sources → Settings
  pub read_config : Place → Reply String

abbrev pub nucleus_sources : String → String → Sources
nucleus_sources log_file flagged = record {
  env_prefix = "";
  defaults = nucleus_defaults log_file;
  place = place_of flagged ".nucleus" ("./" ∷ "$HOME/.nucleus" ∷ []);
}

abbrev pub synapse_sources : String → Sources
synapse_sources flagged = record {
  env_prefix = "SYN";
  defaults = synapse_defaults;
  place = place_of flagged ".synapse" ("./" ∷ "$HOME/.synapse" ∷ []);
}

-- `populateNucleusConfig` and `populateSynapseConfig` of a new configuration.
unfoldable pub populate : Settings → (fields : Fields) → Result (Values fields)
populate s fields = recursively_set s "" fields (zero_values fields)

unfoldable pub load_nucleus_config : Viper → String → Result (Values nucleus_fields)
load_nucleus_config viper log_file =
    check viper.bind_flags
    >> populate (viper.settings (nucleus_sources log_file viper.config_flag)) nucleus_fields

unfoldable pub load_synapse_config : Viper → Result (Values synapse_fields)
load_synapse_config viper =
    check viper.bind_flags
    >> populate (viper.settings (synapse_sources viper.config_flag)) synapse_fields

-- The parts of a `SynapseConfig` that its loading looks at.
abbrev pub secret_key : Values synapse_fields → String
unfolding Value
secret_key
      (name, (config, (file, (log, (env, (verbose, (key, (git, (registry, (secrets, rest)))))))))) =
    key.0

abbrev pub mode : Values synapse_fields → String
unfolding Value
mode (name, (config, (file, (log, (env, (verbose, (key, (git, (registry, (secrets, rest)))))))))) =
    registry.1.0

abbrev pub with_secrets : Dict (Dict String) → Values synapse_fields → Values synapse_fields
unfolding Value
with_secrets loaded
      (name, (config, (file, (log, (env, (verbose, (key, (git, (registry, (secrets, rest)))))))))) =
    (name, (config, (file, (log, (env, (verbose, (key, (git, (registry, (loaded, rest))))))))))

abbrev text_or_empty : Reply String → String
text_or_empty (got content) = content
text_or_empty (refused e) = ""

-- `LoadRepoSecrets`, which never fails: `decode` is what unmarshalling leaves in an empty struct, and
-- a file that could not be read is unmarshalled as an empty text.
unfoldable pub load_repo_secrets :
    Viper → (String → Dict (Dict String)) → Values synapse_fields → Values synapse_fields
load_repo_secrets viper decode cfg =
    let place = place_of viper.config_flag ".synapse" ("./" ∷ "$HOME/.synapse" ∷ []) in
    with_secrets (decode (text_or_empty (viper.read_config place))) cfg

abbrev pub validated : String → String → Option Err
validated key registry_mode =
    if str_eq key ""
    then some (error "error finding lambdatest secretkey in configuration file")
    else if str_eq registry_mode ""
    then some (error "error finding ContainerRegistry Mode in configuration file")
    else none

-- `ValidateCfg`
unfoldable pub validate_cfg : Values synapse_fields → Option Err
validate_cfg cfg = validated (secret_key cfg) (mode cfg)
