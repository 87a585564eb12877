-- ===== src/PayloadManager/Fetched.antt =====
-- Which payloads `FetchPayload` of pkg/payloadmanager/setup.go returns.
use test_at_scale.Prelude.{ℕ, String, ◌≡◌, refl, []}
use test_at_scale.Errs.{ok, Reply, got, refused}
use test_at_scale.Models.{Payload}
use test_at_scale.Requests.{Web, make_api_request}
use test_at_scale.Requests.Retry.{Settles, accepted, make_api_request-Settles}
use test_at_scale.PayloadManager.{unmarshalled, of_answer, fetch_payload}

unmarshalled-ok : (r : Reply Payload) (p : Payload) → (unmarshalled r ≡ ok p) → (r ≡ got p)
unmarshalled-ok (got q) p h = cc
unmarshalled-ok (refused e) p h = cc

of_answer-ok :
    (unmarshal : String → Reply Payload) (r : Reply (ℕ × String)) (p : Payload)
    → of_answer unmarshal r ≡ ok p
    → (status : ℕ) × (body : String) × (r ≡ got (status, body)) × (unmarshal body ≡ got p)
of_answer-ok unmarshal (refused e) p h = cc
of_answer-ok unmarshal (got (status, body)) p h =
    (status, body, refl, unmarshalled-ok (unmarshal body) p h)

-- A fetched payload is the decoded body of an answer with status 200, which an attempt that the
-- backoff policy allows gave after attempts that all failed for a passing reason.
pub fetch_payload-Settles :
    (web : Web) (unmarshal : String → Reply Payload) (address url : String) (p : Payload)
    → web.prepare address [] ≡ got url
    → fetch_payload web unmarshal address ≡ ok p
    → (body : String) × Settles
        (web.send (record { method = "GET"; url = url; payload = ""; headers = [] }))
        web.tries
        0
        (accepted body)
      × (unmarshal body ≡ got p)
unfolding fetch_payload
fetch_payload-Settles web unmarshal address url p prepared h =
    let (status, body, answered, read) =
      of_answer-ok unmarshal (make_api_request web "GET" address "" [] []) p h in
    let (ok_status, settles) =
      (make_api_request-Settles web "GET" address "" url [] [] status body prepared).0 answered in
    (body, settles, read)
