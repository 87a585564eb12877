-- ===== src/Synapse/Tests.antt =====
-- One task and one abort, run, and the results at concrete inputs.
use test_at_scale.Prelude.{
  String, Bool, Option, str_eq, ap, ◌+◌, ◌≡◌, ◌≢◌, refl, sym, ◌∙◌, true, none, some, [], ◌∷◌, ◌++◌,
  lookup,
}
use test_at_scale.Errs.{Result, ok, err, panicked, foreign}
use test_at_scale.Models.{small}
use test_at_scale.Config.Tests.{sample_yaml}
use test_at_scale.Config.Download.{DownloaderOutput, get_tas_config}
use test_at_scale.Secrets.Tests.{config}
use test_at_scale.Format.{or_empty}
use test_at_scale.Synapse.{StatType, resource_release, resource_capture}
use test_at_scale.Synapse.{yml_parsing_request, message_error, write_message_to_buffer}
use test_at_scale.Synapse.Connection.Reader.{received, duplicate, message_reader, read_rounds}
use test_at_scale.Synapse.Parsing.{
  Host, YmlParsingRequestMessage, YmlParsingResultMessage, process_yml_parsing_request,
}
use test_at_scale.Synapse.Parsing.Answered.{
  config_of, Says, Announces, process_yml_parsing_request-Says,
}
use test_at_scale.Errs.{no_error}
use test_at_scale.Models.{RunnerOptions, ContainerStatus, nucleus_pod, medium}
use test_at_scale.Synapse.{
  Json, Message, task, Synapse, process_message, process_task, process_abort_build,
  update_job_status, job_aborted,
}
use test_at_scale.Synapse.Traces.{
  Process, Steps, step, done, task_received, container_ended, end_messages, aborted_is_reported,
}
use test_at_scale.Synapse.Accounts.{account, tasks, is_release, IsReading, releases_balance}

abbrev container : RunnerOptions
container = record {
  container_id = "";
  docker_image = "nucleus";
  label = ("build-id", "b1") ∷ ("job-id", "j1") ∷ [];
  container_name = "c1";
  container_args = [];
  host_volume_path = "";
  env = [];
  pod_type = nucleus_pod;
  tier = medium;
}

abbrev message : Message
message = record { type = task; content = "b1"; success = true }

abbrev name_of : StatType → String
name_of resource_release = "release"
name_of resource_capture = "capture"

abbrev json : Json
json = record {
  decode_message = λ _. message;
  decode_runner_options = λ _. container;
  encode_job_info = λ _. some "job";
  encode_resource_stats = λ stats. some (name_of stats.status);
}

abbrev ended : ContainerStatus
ended = record { done = true; error = no_error }

abbrev idle : Synapse
idle = record { build_abort_map = []; sent = [] }

abbrev first : Process
first = record { synapse = idle; active = [] }

abbrev last : Process
last = record {
  synapse =
      update_job_status json (process_task json message idle).0 ended
        (process_task json message idle).1;
  active = [];
}

abbrev one_task : Steps json first last
unfolding process_message
one_task =
    step (task_received "" message refl)
      (step (container_ended [] [] (process_task json message idle).0 ended) done)

abbrev says_release : String → Bool
says_release text = str_eq text "release"

name_is_read :
    (status : StatType) (text : String)
    → ◌≡◌ {A = Option String} (some (name_of status)) (some text)
    → says_release text ≡ is_release status
unfolding or_empty
name_is_read resource_release text h = sym (ap (λ o. says_release (or_empty o)) h)
name_is_read resource_capture text h = sym (ap (λ o. says_release (or_empty o)) h)

name-IsReading : IsReading json says_release
name-IsReading stats text h = name_is_read stats.status text h

releases_balance_example : account says_release last ≡ account says_release first + tasks one_task
releases_balance_example =
    releases_balance json says_release name-IsReading first last one_task (λ stats. refl)

aborted_is_reported_example :
    (update_job_status json container ended (process_abort_build message idle)).sent
    ≡ (process_abort_build message idle).sent ++ end_messages json job_aborted container ended
unfolding lookup
aborted_is_reported_example =
    aborted_is_reported json message idle []
      (record { synapse = process_abort_build message idle; active = [] }) container ended refl done

abbrev request : YmlParsingRequestMessage
request = record {
  git_provider = "github";
  commit_id = "c";
  event = "push";
  repo_slug = "a/b";
  tas_file_name = ".tas.yml";
  license_tier = small;
  org_id = "o1";
  build_id = "b1";
}

abbrev host : Host
host = record {
  yaml = sample_yaml;
  download = λ req oauth. err (foreign "not found");
  remove = λ path. none;
  decode = λ text. (some request, none);
  encode = λ r. some r.error_msg;
}

abbrev asked : Message
asked = record { type = yml_parsing_request; content = "{}"; success = true }

abbrev not_found : Result DownloaderOutput
not_found = err (foreign "not found")

not_a_panic : not_found ≢ panicked
not_a_panic h = cc

refuses : config_of host config request ≡ err (foreign "not found")
unfolding get_tas_config
refuses = refl

process_yml_parsing_request-Says_example :
    (r : YmlParsingResultMessage) × (r.org_id ≡ "o1")
    × (r.build_id ≡ "b1")
    × Says (config_of host config request) r
    × (answer : Message) × Announces host r answer
    × (process_yml_parsing_request host config asked idle
        ≡ (write_message_to_buffer answer idle, ok tt))
process_yml_parsing_request-Says_example =
    process_yml_parsing_request-Says host config asked idle request refl
      (λ h. not_a_panic (sym refuses ∙ h)) (λ r. (r.error_msg, refl))

-- A message, then a duplicate connection; nothing behind it is read.
reads_one :
    message_reader json none (received "m" ∷ duplicate ∷ received "n" ∷ [])
    ≡ record { started = process_message json "m" ∷ []; sent = some message_error }
unfolding message_reader read_rounds
reads_one = refl
