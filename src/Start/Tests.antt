-- ===== src/Start/Tests.antt =====
-- Synapse and nucleus on a machine that has all they need.
use test_at_scale.Prelude.{◌⧺◌, ◌≡◌, refl, true, false, none, [], str_eq, if◌then◌else◌}
use test_at_scale.Errs.{Result, is_ok, ok, err, got, panicked}
use test_at_scale.Models.{pos}
use test_at_scale.Masking.{trim_space}
use test_at_scale.Loading.{Values, Settings, recursively_set, get_tags, each_tag, zero_values}
use test_at_scale.Loading.Types.{
  synapse_fields, Viper, load_synapse_config, load_nucleus_config, populate,
}
use test_at_scale.Loading.Validated.{validate_cfg-loaded}
use test_at_scale.Start.Synapse
use test_at_scale.Start.Synapse.{Machine, start}
use test_at_scale.Start.Nucleus
use test_at_scale.Start.Nucleus.Follows.{start-Follows}
use test_at_scale.Azure.{new_azure_blob_env}
use test_at_scale.Files.Archive

abbrev settings : Settings
settings = record {
  get_int = λ key. pos 0;
  get_string = λ key. if str_eq key "LogFile" then "" else "prod";
  get_bool = λ key. false;
}

abbrev viper : Viper
viper = record {
  bind_flags = none;
  config_flag = "";
  settings = λ sources. settings;
  read_config = λ place. got "{}";
}

abbrev machine : Machine
machine = record {
  viper = viper;
  decode_secrets = λ content. [];
  join = λ folder name. folder ⧺ "/" ⧺ name;
  docker_client = none;
  docker_info = got (record { cpu = 4; ram = 1073741824 });
  environment = [];
  parse_remote = λ url. got (record { scheme = "https"; host = url });
}

-- The configuration that this viper gives.
abbrev loaded : (cfg : Values synapse_fields) × (load_synapse_config viper ≡ ok cfg)
loaded =
    let (cfg, is_loaded, rest) = validate_cfg-loaded viper (λ content. []) refl in (cfg, is_loaded)

abbrev local_machine : Nucleus.Machine
local_machine = record {
  viper = record viper {
    settings = λ sources. record settings {
      get_string = λ key. if str_eq key "synapsehost" then " http://synapse:8000\n" else "";
      get_bool = λ key. str_eq key "local";
    };
  };
  join = λ folder name. folder ⧺ "/" ⧺ name;
  default_log = "/home/nucleus/nucleus.log";
  connector = record {
    credential = λ name key. none;
    parse = λ url. got url;
    service_client = λ url. none;
  };
  look_path = got "/bin/tar";
  manifest = "/tmp/manifest.txt";
  write_file = λ path content. none;
  user_home_dir = got "/home/nucleus";
  coverage_dir_absent = false;
}

runs : is_ok (Nucleus.start local_machine) ≡ true
unfolding Nucleus.start load_nucleus_config populate recursively_set get_tags each_tag zero_values
    new_azure_blob_env Archive.new
runs = refl

started : (r : Result Nucleus.Started) → is_ok r ≡ true → (t : Nucleus.Started) × (r ≡ ok t)
started (ok t) h = (t, refl)
started (err e) h = cc
started panicked h = cc

start-Follows_example :
    ((started (Nucleus.start local_machine) runs).0.neuron_host
      ≡ trim_space " http://synapse:8000\n")
    × ((started (Nucleus.start local_machine) runs).0.container ≡ none)
    × ((started (Nucleus.start local_machine) runs).0.coverage ≡ false)
start-Follows_example =
    let (t, ran) = started (Nucleus.start local_machine) runs in start-Follows local_machine t ran
