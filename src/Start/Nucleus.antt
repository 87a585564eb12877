-- ===== src/Start/Nucleus.antt =====
-- `run` of cmd/nucleus/bin.go up to the start of its goroutines, with the constructors of the services
-- that can fail: the cache manager, the coverage service, the archiver and the store of blobs.
pub mod Follows
use test_at_scale.Prelude.{
  String, ◌≡◌, refl, sym, ap, ◌∙◌, Bool, true, false, Option, none, some, [], ◌∷◌, arith,
  if◌then◌else◌, Bool-cases, inl, inr, str_eq, ◌||◌,
}
use test_at_scale.Errs.{
  Err, error, Result, ok, err, panicked, check, ◌>>=◌, ◌>>◌, >>=-eq-ok, Reply, got, refused,
}
use test_at_scale.Masking.{trim_space}
use test_at_scale.Azure.{
  BlobConfig, Connector, new_azure_blob_env, container_client, connected, authorized, with_account,
  account_url, local_account,
}
use test_at_scale.Files.Archive
use test_at_scale.Files.Archive.{Archiver}
use test_at_scale.Loading.{Value, Values, Settings, get_tags, zero_values}
use test_at_scale.Loading.Types.{
  nucleus_fields, nucleus_sources, Viper, load_nucleus_config, populate,
}
use test_at_scale.Loading.Merged.{merged, or_else, given_string, given_bool}
use test_at_scale.Loading.Validated.{populate_nucleus, given_or_empty, ok-inj}
use test_at_scale.Start.{of_reply, log_location}

-- The fields of a `NucleusConfig` that the start looks at.
pub record View : Type 0 where
  pub log_file : String
  pub file_location : String
  pub blobs : BlobConfig
  pub synapse_host : String

unfoldable pub view : Values nucleus_fields → View
unfolding Value
view
      (
        config,
        (
          port,
          (
            address,
            (
              stats,
              (
                runs,
                (
                  log,
                  (
                    (
                      console,
                      (
                        console_json,
                        (console_level, (file, (file_json, (file_level, (location, end))))),
                      ),
                    ),
                    (
                      coverage,
                      (
                        discover,
                        (
                          execute,
                          (
                            flaky,
                            (
                              task,
                              (
                                build,
                                (
                                  locators,
                                  (
                                    locator_address,
                                    (
                                      env,
                                      (
                                        verbose,
                                        (
                                          (container, (account, (key, last))),
                                          (local, (host, (sub_module, rest))),
                                        ),
                                      ),
                                    ),
                                  ),
                                ),
                              ),
                            ),
                          ),
                        ),
                      ),
                    ),
                  ),
                ),
              ),
            ),
          ),
        ),
      ) =
    record {
      log_file = log;
      file_location = location;
      blobs = record {
        coverage_mode = coverage;
        local_runner = local;
        storage_account_name = account;
        storage_access_key = key;
        container_name = container;
      };
      synapse_host = host;
    }

-- What the start asks the machine for; the bounds of the archiver are those of Files/Archive.
pub record Machine : Type 0 where
  pub viper : Viper
  pub join : String → String → String
  pub default_log : String
  pub connector : Connector
  pub look_path : Reply String
  pub manifest : String
  pub write_file : String → String → Option Err
  pub user_home_dir : Reply String
  pub coverage_dir_absent : Bool

pub record Started : Type 0 where
  pub config : Values nucleus_fields
  pub log : String
  pub neuron_host : String
  pub container : Option String
  pub archiver : Archiver
  pub home_dir : String
  pub coverage : Bool

abbrev pub neuron_remote_host : String
neuron_remote_host = "http://neuron-service.phoenix.svc.cluster.local"

unfoldable pub neuron_host : View → String
neuron_host v = if v.blobs.local_runner then trim_space v.synapse_host else neuron_remote_host

-- `cachemanager.New`, of which the folder of the user is kept.
unfoldable pub new_cache : Reply String → Reply String
new_cache (refused e) = refused e
new_cache (got home_dir) = got home_dir

-- `coverage.New`: whether there is a service.
unfoldable pub new_coverage : Bool → Bool → Result Bool
new_coverage coverage_mode absent =
    if coverage_mode
    then (if absent then err (error "coverage directory not mounted") else ok true)
    else ok false

abbrev pub assembled :
    Values nucleus_fields
    → View
    → String
    → Reply (Option String)
    → Reply Archiver
    → Reply String
    → Result Bool
    → Result Started
assembled cfg v log store archive cache coverage_service = of_reply store >>= λ container.
    of_reply archive >>= λ archiver. of_reply cache >>= λ home_dir. coverage_service >>= λ coverage.
    ok (record {
      config = cfg;
      log = log;
      neuron_host = neuron_host v;
      container = container;
      archiver = archiver;
      home_dir = home_dir;
      coverage = coverage;
    })

-- The logger of zap is always made: its file is opened later.
abbrev pub with_config : Machine → Values nucleus_fields → View → Result Started
with_config m cfg v =
    assembled cfg v (log_location m.join v.log_file "nucleus.log" v.file_location)
      (new_azure_blob_env m.connector v.blobs) (Archive.new m.look_path m.manifest m.write_file)
      (new_cache m.user_home_dir) (new_coverage v.blobs.coverage_mode m.coverage_dir_absent)

-- A configuration that cannot be loaded ends the program at once.
unfoldable pub start : Machine → Result Started
unfolding view log_location neuron_host new_cache new_coverage
start m = load_nucleus_config m.viper m.default_log >>= λ cfg. with_config m cfg (view cfg)
