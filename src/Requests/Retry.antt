-- ===== src/Requests/Retry.antt =====
-- Which attempt a request of pkg/requestutils/request.go answers with.
use test_at_scale.Prelude.{
  ℕ, zero, suc, ◌+◌, String, ◌≡◌, ◌≢◌, ◌↔◌, ◌⊎◌, ◌≤◌, ◌<◌, refl, sym, ap, ◌∙◌, true, false, not,
  Dict, ◌==◌, arith, if◌then◌else◌, Bool-cases, inl, inr,
}
use test_at_scale.Errs.{Err, error, Reply, got, refused}
use test_at_scale.Requests.{
  Response, Request, Web, is_transient, sent_to, settled, read, retry, make_api_request,
}

-- No answer came, or one with a status from 500 to 599.
abbrev pub FailsForNow : Reply Response → Type 0
FailsForNow (refused e) = Unit
FailsForNow (got r) = (500 ≤ r.status) × (r.status < 600)

abbrev pub IsLasting : Reply Response → Type 0
IsLasting (refused e) = ⊥
IsLasting (got r) = (r.status < 500) ⊎ (600 ≤ r.status)

is_transient-FailsForNow : (a : Reply Response) → is_transient a ≡ true → FailsForNow a
is_transient-FailsForNow (refused e) h = tt
is_transient-FailsForNow (got r) h = ground (arith, h)

FailsForNow-is_transient : (a : Reply Response) → FailsForNow a → is_transient a ≡ true
FailsForNow-is_transient (refused e) h = refl
FailsForNow-is_transient (got r) h = ground (arith, h.0, h.1)

-- The first attempt that is not to be tried again, from the attempt `i` on.
pub data Settles (send : ℕ → Reply Response) : ℕ → ℕ → Response → Type 0 where
  at_once : {left i : ℕ} (r : Response) → send i ≡ got r → IsLasting (got r) → Settles send left i r
  later :
      {left i : ℕ} {r : Response}
      → FailsForNow (send i)
      → Settles send left (i + 1) r
      → Settles send (suc left) i r

-- A response that is passed on as the answer.
abbrev pub accepted : String → Response
accepted body = record { status = 200; body = got body }

read-got :
    (b : Reply String) (n status : ℕ) (body : String)
    → read b n ≡ got (status, body)
    → (n ≡ status) × (b ≡ got body)
read-got (got x) n status body h = (ap status_of h, ap body_of h)
  where
    status_of : Reply (ℕ × String) → ℕ
    status_of (got (m, y)) = m
    status_of (refused e) = 0

    body_of : Reply (ℕ × String) → Reply String
    body_of (got (m, y)) = got y
    body_of (refused e) = refused e
read-got (refused e) n status body h = cc

refused-apart :
    (e : Err) (status : ℕ) (body : String)
    → ◌≢◌ {A = Reply (ℕ × String)} (refused e) (got (status, body))
refused-apart e status body h = cc

settled_parts :
    (b : Reply String) (n status : ℕ) (body : String)
    → (if not (n == 200) then refused (error "non 200 status code") else read b n)
      ≡ got (status, body)
    → (status ≡ 200) × (n ≡ 200) × (b ≡ got body)
settled_parts b n status body h = elim (Bool-cases (n == 200)) [
  | inl same ↦
      let is_200 : n ≡ 200 = ground (arith, same) in
      let (kept, got_body) = read-got b n status body (rw same at h) in
      (sym kept ∙ is_200, is_200, got_body)
  | inr other ↦ absurd (refused-apart _ status body (rw other at h))
]

settled-got :
    (a : Reply Response) (status : ℕ) (body : String)
    → settled a ≡ got (status, body)
    → (status ≡ 200) × (a ≡ got (accepted body))
settled-got (refused e) status body h = cc
settled-got (got r) status body h =
    let (kept, is_200, got_body) = settled_parts r.body r.status status body h in
    (
      kept,
      ap (λ n. got (record { status = n; body = r.body })) is_200
          ∙ ap (λ b. got (record { status = 200; body = b })) got_body,
    )

-- An attempt that is not tried again, and its answer.
ended :
    (send : ℕ → Reply Response) (left i status : ℕ) (body : String)
    → is_transient (send i) ≡ false
    → settled (send i) ≡ got (status, body)
    → (status ≡ 200) × Settles send left i (accepted body)
ended send left i status body steady h =
    let (is_200, same) = settled-got (send i) status body h in
    (is_200, at_once (accepted body) same (inl (omega arith)))

retry-Settles :
    (send : ℕ → Reply Response) (left i status : ℕ) (body : String)
    → retry send left i ≡ got (status, body)
    → (status ≡ 200) × Settles send left i (accepted body)
unfolding retry
retry-Settles send zero i status body h = elim (Bool-cases (is_transient (send i))) [
  | inl again ↦ absurd (refused-apart _ status body (rw again at h))
  | inr steady ↦ ended send zero i status body steady (rw steady at h)
]
retry-Settles send (suc left) i status body h = elim (Bool-cases (is_transient (send i))) [
  | inl again ↦
      let (is_200, rest) = retry-Settles send left (i + 1) status body (rw again at h) in
      (is_200, later (is_transient-FailsForNow (send i) again) rest)
  | inr steady ↦ ended send (suc left) i status body steady (rw steady at h)
]

Settles-retry :
    (send : ℕ → Reply Response) (left i : ℕ) (body : String)
    → Settles send left i (accepted body)
    → retry send left i ≡ got (200, body)
unfolding retry
Settles-retry send zero i body (at_once r sent steady) = rw sent refl
Settles-retry send (suc left) i body (at_once r sent steady) = rw sent refl
Settles-retry send (suc left) i body (later again rest) =
    rw (FailsForNow-is_transient (send i) again) (Settles-retry send left (i + 1) body rest)

-- When the address of a request could be prepared, it answers with a status and a body exactly if
-- the status is 200 and, within the allowed attempts, the first one that neither failed nor was
-- answered with 500 to 599 was answered with 200 and that body.
pub make_api_request-Settles :
    (web : Web) (method endpoint payload url : String) (query headers : Dict String) (status : ℕ)
    (body : String)
    → web.prepare endpoint query ≡ got url
    → (make_api_request web method endpoint payload query headers ≡ got (status, body)) ↔ (
        (status ≡ 200)
        × Settles
            (web.send (record { method = method; url = url; payload = payload; headers = headers }))
            web.tries
            0
            (accepted body))
unfolding make_api_request
make_api_request-Settles web method endpoint payload url query headers status body prepared =
    let request : Request = record {
      method = method;
      url = url;
      payload = payload;
      headers = headers;
    } in
    let tried : make_api_request web method endpoint payload query headers
        ≡ retry (web.send request) web.tries 0 =
      ap (sent_to web method payload headers) prepared in
    (
      λ h. retry-Settles (web.send request) web.tries 0 status body (sym tried ∙ h),
      λ p.
          tried
          ∙ Settles-retry (web.send request) web.tries 0 body p.1
          ∙ ap (λ n. got (n, body)) (sym p.0),
    )
