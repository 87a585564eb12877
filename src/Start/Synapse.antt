-- ===== src/Start/Synapse.antt =====
-- `run` of cmd/synapse/bin.go up to the start of its goroutines.
use test_at_scale.Prelude.{String, ◌≡◌, ◌≢◌, refl, Option, some, Dict, insert, lookup}
use test_at_scale.Errs.{Err, Result, ok, err, panicked, check, ◌>>=◌, ◌>>◌, Reply, got}
use test_at_scale.Format.{or_empty}
use test_at_scale.Loading.{Value, Values, Settings}
use test_at_scale.Loading.Types.{
  synapse_fields, synapse_sources, Viper, load_synapse_config, load_repo_secrets, validate_cfg,
}
use test_at_scale.Runner.Client.{Client, Info, new_docker_client}
use test_at_scale.Server.Proxy.{Remote, new_proxy_handler}
use test_at_scale.Start.{of_reply, log_location}

abbrev pub log_file : Values synapse_fields → String
unfolding Value
log_file (name, (config, (file, rest))) = file

abbrev pub file_location : Values synapse_fields → String
unfolding Value
file_location (name, (config, (file, ((c, (cj, (cl, (f, (fj, (fl, (location, end))))))), rest)))) =
    location

-- What the start asks the machine for. A logger of zap is always made: its file is opened later.
pub record Machine : Type 0 where
  pub viper : Viper
  pub decode_secrets : String → Dict (Dict String)
  pub join : String → String → String
  pub docker_client : Option Err
  pub docker_info : Reply Info
  pub environment : Dict String
  pub parse_remote : String → Reply Remote

pub record Started : Type 0 where
  pub config : Values synapse_fields
  pub log : String
  pub runner : Client
  pub remote : Remote

-- `setEnv`
unfoldable pub set_env : Dict String → Dict String
set_env env = insert "NetworkName" "test-at-scale" (
    insert "synapsehost" "http://synapse:8000"
      (insert "local" "true" (insert "AutoRemove" "true" env)))

abbrev pub settings_of : Machine → Settings
settings_of m = m.viper.settings (synapse_sources m.viper.config_flag)

abbrev pub logs_to : Machine → Values synapse_fields → String
logs_to m cfg = log_location m.join (log_file cfg) "synapse.log" (file_location cfg)

-- The network that the runner reads from the environment that was set.
abbrev pub network_of : Machine → String
network_of m = or_empty (lookup "NetworkName" (set_env m.environment))

abbrev pub services : Machine → Values synapse_fields → Result Started
services m cfg =
    of_reply (new_docker_client m.docker_client m.docker_info (network_of m)) >>= λ runner.
    of_reply (new_proxy_handler m.parse_remote ((settings_of m).get_string "env")) >>= λ remote.
    ok (record { config = cfg; log = logs_to m cfg; runner = runner; remote = remote })

abbrev pub with_config : Machine → Values synapse_fields → Result Started
with_config m cfg = check (validate_cfg cfg) >> services m cfg

-- After an error of the loading, which is only printed, the configuration is nil and is written to.
abbrev pub with_loaded : Machine → Result (Values synapse_fields) → Result Started
with_loaded m (ok cfg) = with_config m (load_repo_secrets m.viper m.decode_secrets cfg)
with_loaded m (err e) = panicked
with_loaded m panicked = panicked

unfoldable pub start : Machine → Result Started
unfolding log_location
start m = with_loaded m (load_synapse_config m.viper)

-- Everything that the start asks of the machine is there.
pub record IsReady (m : Machine) (cfg : Values synapse_fields) : Type 0 where
  pub has_key : (settings_of m).get_string "Lambdatest.SecretKey" ≢ ""
  pub has_mode : (settings_of m).get_string "ContainerRegistry.Mode" ≢ ""
  pub runner :
      (c : Client) × (new_docker_client m.docker_client m.docker_info "test-at-scale" ≡ got c)
  pub remote :
      (r : Remote) × (new_proxy_handler m.parse_remote ((settings_of m).get_string "env") ≡ got r)

-- Where the flags cannot be bound, the nil configuration is written to.
start-panicked : (m : Machine) (e : Err) → m.viper.bind_flags ≡ some e → start m ≡ panicked
unfolding start load_synapse_config
start-panicked m e unbound = rw unbound refl
