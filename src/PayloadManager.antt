-- ===== src/PayloadManager.antt =====
-- pkg/payloadmanager/setup.go: the validation of a payload, which it also completes from the
-- configuration of nucleus. The writes to the shared payload are its new value; after an error the
-- caller ends the process, so only the error is kept. The decoding of JSON is a parameter of the fetch.
pub mod Valid
pub mod Fetched
pub mod Tests
use test_at_scale.Prelude.{
  ℕ, String, ◌⧺◌, Bool, not, ◌&&◌, List, [], ◌∷◌, ◌==◌, length, str_eq, if◌then◌else◌,
}
use test_at_scale.Errs.{Err, error, Result, ok, err, refuse_if, ◌>>◌, Reply, got, refused}
use test_at_scale.Models.{Payload, event_push, event_pull_request}
use test_at_scale.Requests.{Web, make_api_request}

-- The fields of `config.NucleusConfig` that nucleus reads.
pub record NucleusConfig : Type 0 where
  pub payload_address : String
  pub coverage_mode : Bool
  pub discover_mode : Bool
  pub flaky_mode : Bool
  pub task_id : String
  pub locators : String
  pub locator_address : String
  pub sub_module : String
  pub env : String

abbrev pub is_empty : String → Bool
is_empty s = str_eq s ""

abbrev err_invalid_payload : String → Err
err_invalid_payload text = error text

-- The configuration's value, unless it is empty.
abbrev pub preferred : String → String → String
preferred configured given = if not (is_empty configured) then configured else given

-- A sequence of `if failed { return e }`.
abbrev pub refuse_first : List (Bool × Err) → Result (Unit {0})
refuse_first [] = ok tt
refuse_first ((failed, e) ∷ checks) = refuse_if failed e >> refuse_first checks

abbrev missing : String → String → Bool × Err
missing field text = (is_empty field, err_invalid_payload text)

unfoldable pub completed : NucleusConfig → Payload → Payload
completed cfg p =
    let located = record p {
      locators = preferred cfg.locators p.locators;
      locator_address = preferred cfg.locator_address p.locator_address;
    } in
    if not cfg.coverage_mode then record located { task_id = cfg.task_id } else located

unfoldable pub payload_checks : NucleusConfig → Payload → List (Bool × Err)
payload_checks cfg p =
    missing p.repo_link "Missing repo link"
    ∷ missing p.repo_slug "Missing repo slug"
    ∷ missing p.git_provider "Missing git provider"
    ∷ missing p.build_id "Missing BuildID"
    ∷ missing p.repo_id "Missing RepoID"
    ∷ missing p.branch_name "Missing Branch Name"
    ∷ missing p.org_id "Missing OrgID"
    ∷ missing p.tas_file_name "Missing tas yml filename"
    ∷ missing p.build_target_commit "Missing build target commit"
    ∷ (
      not cfg.coverage_mode && is_empty cfg.task_id,
      err_invalid_payload "Missing taskID in config",
    )
    ∷ (
      not (str_eq p.event_type event_push) && not (str_eq p.event_type event_pull_request),
      err_invalid_payload "Invalid event type",
    )
    ∷ (
      str_eq p.event_type event_push && (length p.commits == 0),
      err_invalid_payload "Missing commits error",
    )
    ∷ []

unfoldable pub validate_payload : NucleusConfig → Payload → Result Payload
validate_payload cfg p = refuse_first (payload_checks cfg p) >> ok (completed cfg p)

abbrev pub unmarshalled : Reply Payload → Result Payload
unmarshalled (got p) = ok p
unmarshalled (refused e) = err e

abbrev pub of_answer : (String → Reply Payload) → Reply (ℕ × String) → Result Payload
of_answer unmarshal (refused e) = err e
of_answer unmarshal (got (status, raw_bytes)) = unmarshalled (unmarshal raw_bytes)

unfoldable pub fetch_payload : Web → (String → Reply Payload) → String → Result Payload
fetch_payload web unmarshal payload_address =
    of_answer unmarshal (make_api_request web "GET" payload_address "" [] [])
