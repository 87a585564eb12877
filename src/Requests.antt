-- ===== src/Requests.antt =====
-- pkg/requestutils/request.go: a request that is tried again, and the reports that are one request each:
-- pkg/task/task.go, pkg/listsubmoduleservice/setup.go and `SendResult` of the test discovery.
-- The network and the encoding of addresses and JSON answer through `Web`; `send` is given the number of
-- the attempt, and `tries` is how often the backoff policy allows another one.
pub mod Retry
pub mod Tests
use test_at_scale.Prelude.{
  ℕ, zero, suc, ◌+◌, String, ◌⧺◌, Bool, true, false, not, ◌&&◌, Option, none, some, List, [], ◌∷◌,
  Dict, leb, ltb, ◌==◌, if◌then◌else◌,
}
use test_at_scale.Errs.{Err, error, Reply, got, refused}
use test_at_scale.Models.{TaskPayload, DiscoveryResult, SubModuleList}

pub record Response : Type 0 where
  pub status : ℕ
  pub body : Reply String

pub record Request : Type 0 where
  pub method : String
  pub url : String
  pub payload : String
  pub headers : Dict String

pub record Web : Type 0 where
  pub environment : String → String
  pub neuron_host : String
  pub prepare : String → Dict String → Reply String
  pub send : Request → ℕ → Reply Response
  pub tries : ℕ

-- The error of an operation that is tried again.
abbrev pub is_server_error : ℕ → Bool
is_server_error status = leb 500 status && ltb status 600

abbrev pub is_transient : Reply Response → Bool
is_transient (refused e) = true
is_transient (got r) = is_server_error r.status

abbrev pub read : Reply String → ℕ → Reply (ℕ × String)
read (got body) status = got (status, body)
read (refused e) status = refused e

-- The answer of an attempt that is not tried again.
abbrev pub settled : Reply Response → Reply (ℕ × String)
settled (refused e) = refused (error "retry limit exceeded")
settled (got r) =
    if not (r.status == 200) then refused (error "non 200 status code") else read r.body r.status

-- From the attempt `i` on, with the number of attempts that are left after it.
unfoldable pub retry : (ℕ → Reply Response) → ℕ → ℕ → Reply (ℕ × String)
retry send zero i =
    if is_transient (send i) then refused (error "retry limit exceeded") else settled (send i)
retry send (suc left) i =
    let rest = retry send left (i + 1) in if is_transient (send i) then rest else settled (send i)

abbrev pub sent_to : Web → String → String → Dict String → Reply String → Reply (ℕ × String)
sent_to web method payload headers (refused e) = refused e
sent_to web method payload headers (got url) =
    retry (web.send (record { method = method; url = url; payload = payload; headers = headers }))
      web.tries 0

-- `MakeAPIRequest`, without the body and the status that it returns beside an error.
unfoldable pub make_api_request :
    Web → String → String → String → Dict String → Dict String → Reply (ℕ × String)
unfolding retry
make_api_request web method endpoint payload query headers =
    sent_to web method payload headers (web.prepare endpoint query)

-- `GetDefaultQueryAndHeaders`
abbrev pub default_query : Web → Dict String
default_query web =
    ("repoID", web.environment "REPO_ID")
    ∷ ("buildID", web.environment "BUILD_ID")
    ∷ ("orgID", web.environment "ORG_ID")
    ∷ ("taskID", web.environment "TASK_ID")
    ∷ []

abbrev pub default_headers : Web → Dict String
default_headers web = ("Authorization", "Bearer " ⧺ web.environment "TOKEN") ∷ []

abbrev pub error_of {ℓ} : {A : Type ℓ} → Reply A → Option Err
error_of (got a) = none
error_of (refused e) = some e

abbrev pub report : Web → String → String → Reply String → Option Err
report web method endpoint (refused e) = some e
report web method endpoint (got payload) =
    error_of
      (make_api_request web method endpoint payload (default_query web) (default_headers web))

-- `UpdateStatus` of the task, `Send` of the submodule list and `SendResult` of the discovery.
unfoldable pub update_status : Web → (TaskPayload → Reply String) → TaskPayload → Option Err
update_status web encode task = report web "PUT" (web.neuron_host ⧺ "/task") (encode task)

unfoldable pub send_list : Web → (SubModuleList → Reply String) → String → ℕ → Option Err
send_list web encode build_id total =
    report web "POST" (web.neuron_host ⧺ "/submodule-list")
      (encode (record { build_id = build_id; total_sub_module = total }))

unfoldable pub send_result : Web → (DiscoveryResult → Reply String) → DiscoveryResult → Option Err
send_result web encode result = report web "POST" (web.neuron_host ⧺ "/test-list") (encode result)
