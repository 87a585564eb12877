-- ===== src/Synapse.antt =====
-- pkg/synapse/synapse.go and utils.go with pkg/core/wsproto.go: the messages that synapse exchanges
-- with the server, and what it does for a task and for an abort.
-- The encoding of JSON is a parameter. The writing channel `MsgChan` is the list `sent`, oldest first.
pub mod Traces
pub mod Accounts
pub mod Connection
pub mod Parsing
pub mod Tests
use test_at_scale.Prelude.{
  ℕ, String, ◌⧺◌, Bool, true, false, Option, none, some, List, [], ◌∷◌, ◌++◌, Dict, lookup, insert,
  str_eq, if◌then◌else◌,
}
use test_at_scale.Models.{
  RunnerOptions, ContainerStatus, Specs, specs, tier_opts, or_specs, nucleus_pod,
}
use test_at_scale.Runner.Host.{text_or_empty}

-- The values of `MessageType`.
pub data MessageType : Type 0 where
  login logout task info error_message resource_stats job_info build_abort : MessageType
  yml_parsing_request yml_parsing_result no_type : MessageType

pub record Message : Type 0 where
  pub type : MessageType
  pub content : String
  pub success : Bool

abbrev pub zero_message : Message
zero_message = record { type = no_type; content = ""; success = false }

pub data StatusType : Type 0 where
  job_completed job_started job_failed job_aborted : StatusType

pub data StatType : Type 0 where
  resource_release resource_capture : StatType

-- CPU and RAM of `ResourceStats`, as one specification.
pub record ResourceStats : Type 0 where
  pub status : StatType
  pub resources : Specs

pub record JobInfo : Type 0 where
  pub status : StatusType
  pub job_id : String
  pub id : String
  pub mode : String
  pub build_id : String
  pub message : String

-- encoding/json. A decoder gives what it leaves in the variable: an error is only logged.
pub record Json : Type 0 where
  pub decode_message : String → Message
  pub decode_runner_options : String → RunnerOptions
  pub encode_job_info : JobInfo → Option String
  pub encode_resource_stats : ResourceStats → Option String

abbrev pub message_of : MessageType → Option String → Message
message_of t none = zero_message
message_of t (some text) = record { type = t; content = text; success = true }

unfoldable pub create_logout_message : Message
create_logout_message = record { type = logout; content = ""; success = true }

abbrev pub label : String → RunnerOptions → String
label key r = text_or_empty (lookup key r.label)

unfoldable pub create_job_info : StatusType → RunnerOptions → String → JobInfo
create_job_info status r message = record {
  status = status;
  job_id = label "job-id" r;
  id = label "id" r;
  mode = label "mode" r;
  build_id = label "build-id" r;
  message = message;
}

unfoldable pub create_job_update_message : Json → JobInfo → Message
create_job_update_message json job = message_of job_info (json.encode_job_info job)

unfoldable pub create_resource_stats_message : Json → ResourceStats → Message
create_resource_stats_message json stats =
    message_of resource_stats (json.encode_resource_stats stats)

-- Nothing for a tier that is not known, unlike `getSpecs` of the docker runner.
unfoldable pub get_resources : String → Specs
get_resources tier = or_specs (specs 0 0) (tier_opts tier)

-- What the goroutines of synapse share: the builds that the server aborted, and what was written.
pub record Synapse : Type 0 where
  pub build_abort_map : Dict Bool
  pub sent : List Message

abbrev pub or_false : Option Bool → Bool
or_false none = false
or_false (some b) = b

abbrev pub is_aborted : Dict Bool → String → Bool
is_aborted aborts build_id = or_false (lookup build_id aborts)

unfoldable pub write_message_to_buffer : Message → Synapse → Synapse
write_message_to_buffer m s = record s { sent = s.sent ++ m ∷ [] }

unfoldable pub send_resource_updates : Json → StatType → RunnerOptions → Synapse → Synapse
send_resource_updates json status r = write_message_to_buffer (
    create_resource_stats_message json
      (record { status = status; resources = get_resources r.tier }))

-- `runAndUpdateJobStatus` from the receipt of the status of the container on.
unfoldable pub update_job_status : Json → RunnerOptions → ContainerStatus → Synapse → Synapse
update_job_status json r status s =
    let released = send_resource_updates json resource_release r s in
    let finished = if status.done then job_completed else job_failed in
    let job_status =
      if is_aborted s.build_abort_map (label "build-id" r) then job_aborted else finished in
    write_message_to_buffer
      (create_job_update_message json (create_job_info job_status r status.error.message)) released

-- `processTask` up to the start of the container.
unfoldable pub process_task : Json → Message → Synapse → RunnerOptions × Synapse
process_task json m s =
    let r = json.decode_runner_options m.content in
    let started =
      if str_eq r.pod_type nucleus_pod
      then write_message_to_buffer
          (create_job_update_message json (create_job_info job_started r "")) s
      else s in
    (record r { host_volume_path = "/tmp/synapse/data/" ⧺ r.container_name }, started)

-- `processAbortBuild`; the error of the kill, which follows, is only logged.
unfoldable pub process_abort_build : Message → Synapse → Synapse
process_abort_build m s = record s { build_abort_map = insert m.content true s.build_abort_map }

-- Which handler `processMessage` starts.
pub data Handler : Type 0 where
  handle_error handle_task handle_yml_parsing handle_abort : Message → Handler
  handle_none : Handler

unfoldable pub process_message : Json → String → Handler
process_message json msg =
    let m = json.decode_message msg in
    elim m.type [
      | error_message ↦ handle_error m
      | task ↦ handle_task m
      | yml_parsing_request ↦ handle_yml_parsing m
      | build_abort ↦ handle_abort m
      | _ ↦ handle_none
    ]

-- Where `processErrorMessage` signals.
pub data Signal : Type 0 where
  invalid_connection duplicate_connection no_signal : Signal

unfoldable pub process_error_message : Message → Signal
process_error_message m =
    if str_eq m.content "Synapse authentication failed"
    then invalid_connection
    else if str_eq m.content "Synapse already has an open connection"
    then duplicate_connection
    else no_signal

-- What `connectionHandler` selects, and its answer: whether to connect again, and the new value of
-- `LogoutRequired`.
pub data Selected : Type 0 where
  context_done normal_closure invalid_request message_error : Selected

unfoldable pub connection_handler : Selected → Bool → Bool × Bool
connection_handler context_done logout_required = (false, logout_required)
connection_handler normal_closure logout_required = (false, logout_required)
connection_handler invalid_request logout_required = (false, false)
connection_handler message_error logout_required = (true, logout_required)
