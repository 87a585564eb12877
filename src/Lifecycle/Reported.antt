-- ===== src/Lifecycle/Reported.antt =====
-- How the status that pkg/core/lifecycle.go reports last depends on what the services answered.
use test_at_scale.Prelude.{
  ap, ◌∙◌, ℕ, String, ◌⧺◌, ◌≡◌, ◌≢◌, ◌⊎◌, inl, inr, refl, Bool, true, false, Option, none, some,
  Bool-cases, if◌then◌else◌, Dict,
}
use mathlib.Core.Path.{subst}
use test_at_scale.Errs.{
  Err, generic, coded, error, sentinel, status_failed, canceled, foreign, Result, ok, err, panicked,
}
use test_at_scale.Models.{Payload, TaskPayload, Oauth, failed, aborted, errored}
use test_at_scale.PayloadManager.{NucleusConfig, validate_payload}
use test_at_scale.Lifecycle.{
  Driver, Services, Outcome, finished, get_task_payload, prepare, prepare_workspace, run_driver,
  start_body, final_status, start, report, merged, ended_at, last_report, start_task, start_valid,
  start_fetched, after_prepare, on_error,
}

-- A task that a driver ran without an error, and that is reported as the driver left it.
abbrev pub IsRun : NucleusConfig → Services → Payload → TaskPayload → TaskPayload → Type 0
IsRun cfg s p t last =
    (ready : Oauth × Dict String × Driver) × (prepare cfg s p ≡ ok ready)
    × (t' : TaskPayload) × (run_driver cfg s p t ready ≡ (t', ok tt))
    × (last.status ≡ t'.status)

abbrev pub IsFailure : String → Type 0
IsFailure status = (status ≡ aborted) ⊎ (status ≡ failed) ⊎ (status ≡ errored)

pub final_status-cases :
    (t : TaskPayload) (r : Result (Unit {0}))
    → IsFailure (final_status (t, r)).status ⊎ ((r ≡ ok tt) × (final_status (t, r) ≡ t))
unfolding final_status
final_status-cases t (ok tt) = inr (refl, refl)
final_status-cases t panicked = inl (inr (inr refl))
final_status-cases t (err (canceled text)) = inl (inl refl)
final_status-cases t (err (status_failed remark)) = inl (inr (inl refl))
final_status-cases t (err (coded e)) = inl (inr (inr refl))
final_status-cases t (err (error e)) = inl (inr (inr refl))
final_status-cases t (err (sentinel e)) = inl (inr (inr refl))
final_status-cases t (err (foreign e)) = inl (inr (inr refl))

report-finished : (x t : TaskPayload) (o : Option Err) → report x o ≡ finished t → x ≡ t
report-finished x t none h = cc
report-finished x t (some e) h = cc

merged-finished : (o : Option Err) (t : TaskPayload) → merged o ≢ finished t
merged-finished none t h = cc
merged-finished (some e) t h = cc

-- The task payload that a driver is given, and the payload beside it.
abbrev pub given_task : NucleusConfig → ℕ → Payload → Payload
given_task cfg start_time p = record p { task_type = (get_task_payload cfg p start_time).type }

-- A failure, or a run of the driver for a valid payload.
abbrev pub IsReported : NucleusConfig → Services → ℕ → Payload → TaskPayload → Type 0
IsReported cfg s start_time p t =
    IsFailure t.status
    ⊎ IsRun cfg s (given_task cfg start_time p) (get_task_payload cfg p start_time) t

pub body-IsReported :
    (cfg : NucleusConfig) (s : Services) (p : Payload) (t : TaskPayload) (end_time : ℕ)
    (r : Result (Oauth × Dict String × Driver))
    → prepare cfg s p ≡ r
    → let last = final_status (ended_at end_time (after_prepare cfg s p t r)) in
      IsFailure last.status ⊎ IsRun cfg s p t last
body-IsReported cfg s p t end_time (err e) h = elim (final_status-cases _ (err e)) [
  | inl failure ↦ inl failure
  | inr (success, same) ↦ cc
]
body-IsReported cfg s p t end_time panicked h = elim (final_status-cases _ panicked) [
  | inl failure ↦ inl failure
  | inr (success, same) ↦ cc
]
body-IsReported cfg s p t end_time (ok ready) h =
    let (t', r) = run_driver cfg s p t ready in
    elim (final_status-cases (record t' { end_time = end_time }) r) [
      | inl failure ↦ inl failure
      | inr (success, same) ↦ inr (ready, h, t', ap (λ x. (t', x)) success, ap (λ x. x.status) same)
    ]

task-IsReported :
    (cfg : NucleusConfig) (s : Services) (a b : ℕ) (p : Payload) (t : TaskPayload)
    → start_task cfg s a b p ≡ finished t
    → IsReported cfg s a p t
unfolding start_body
task-IsReported cfg s a b p t h =
    let last =
      report-finished (last_report cfg s a b p) t (s.update_status (last_report cfg s a b p)) h in
    let q = given_task cfg a p in
    subst (λ x. IsReported cfg s a p x) last
      (body-IsReported cfg s q (get_task_payload cfg p a) b (prepare cfg s q) refl)

else-branch : {A : Type 0} (b : Bool) (x y z : A) → b ≡ false → (if b then x else y) ≡ z → y ≡ z
else-branch true x y z h e = cc
else-branch false x y z h e = e

mode_off : (b : Bool) (x y : Outcome) → b ≡ false → (if b then x else y) ≡ y
mode_off true x y h = cc
mode_off false x y h = refl

then-branch : {A : Type 0} (b : Bool) (x y : A) → b ≡ true → (if b then x else y) ≡ x
then-branch true x y h = refl
then-branch false x y h = cc

valid-IsReported :
    (cfg : NucleusConfig) (s : Services) (a b : ℕ) (r : Result Payload) (t : TaskPayload)
    → start_valid cfg s a b r ≡ finished t
    → (p : Payload) × (r ≡ ok p)
      × (cfg.coverage_mode ≡ false)
      × (start_task cfg s a b p ≡ finished t)
valid-IsReported cfg s a b (err e) t h = cc
valid-IsReported cfg s a b panicked t h = cc
valid-IsReported cfg s a b (ok p) t h = elim (Bool-cases cfg.coverage_mode) [
  | inl on ↦ absurd (merged-finished (s.merge_and_upload p) t (rw on at h))
  | inr off ↦ (p, refl, off, else-branch cfg.coverage_mode _ _ (finished t) off h)
]

fetched-IsReported :
    (cfg : NucleusConfig) (s : Services) (a b : ℕ) (r : Result Payload) (t : TaskPayload)
    → start_fetched cfg s a b r ≡ finished t
    → (p : Payload) × (r ≡ ok p) × (start_valid cfg s a b (validate_payload cfg p) ≡ finished t)
fetched-IsReported cfg s a b (err e) t h = cc
fetched-IsReported cfg s a b panicked t h = cc
fetched-IsReported cfg s a b (ok p) t h = (p, refl, h)

-- However the services answer, fail or panic, where the first report has ended before the calls of the
-- body: if the pipeline reports a task for the last time, then it is not in coverage mode, it fetched a payload whose validation gave a payload, and either the
-- reported status is aborted, failed or error, or every preparation succeeded, a driver ran on that
-- payload without an error, and the status is the one that the driver left.
pub start-IsReported :
    (cfg : NucleusConfig) (s : Services) (start_time end_time : ℕ) (t : TaskPayload)
    → start cfg s start_time end_time ≡ finished t
    → (cfg.coverage_mode ≡ false)
      × (fetched : Payload) × (valid : Payload) × (s.fetch_payload cfg.payload_address ≡ ok fetched)
      × (validate_payload cfg fetched ≡ ok valid)
      × IsReported cfg s start_time valid t
unfolding start
start-IsReported cfg s a b t h =
    let (fetched, answered, h1) =
      fetched-IsReported cfg s a b (s.fetch_payload cfg.payload_address) t h in
    let (valid, accepted, off, h2) =
      valid-IsReported cfg s a b (validate_payload cfg fetched) t h1 in
    (off, fetched, valid, answered, accepted, task-IsReported cfg s a b valid t h2)

clone-refused :
    (cfg : NucleusConfig) (s : Services) (p : Payload) (oauth : Oauth) (e : Err)
    → cfg.discover_mode ≡ true
    → s.clone p oauth ≡ err e
    → prepare_workspace cfg s p oauth ≡ err (status_failed ("Unable to clone repo: " ⧺ p.repo_link))
unfolding prepare_workspace
clone-refused cfg s p oauth e discover c =
    let remark : Err → Err = λ x. status_failed ("Unable to clone repo: " ⧺ p.repo_link) in
    then-branch cfg.discover_mode (on_error (s.clone p oauth) remark)
      (on_error s.extract_workspace (λ x. generic)) discover
    ∙ ap (λ r. on_error r remark) c

prepare-refused :
    (cfg : NucleusConfig) (s : Services) (p : Payload) (oauth : Oauth) (secrets : Dict String)
    (e : Err)
    → s.get_oauth_secret ≡ ok oauth
    → s.get_repo_secret ≡ ok secrets
    → prepare_workspace cfg s p oauth ≡ err e
    → prepare cfg s p ≡ err e
unfolding prepare
prepare-refused cfg s p oauth secrets e o r w = simp (o, r, w)

-- In discovery mode, a clone that fails, with both secrets read, is reported as a failed task whose
-- remark names the repository, with the ids of the validated payload, provided that the report itself
-- is accepted.
clone_failure_reported :
    (cfg : NucleusConfig) (s : Services) (start_time end_time : ℕ) (fetched valid : Payload)
    (oauth : Oauth) (secrets : Dict String) (e : Err)
    → cfg.discover_mode ≡ true
    → cfg.coverage_mode ≡ false
    → s.fetch_payload cfg.payload_address ≡ ok fetched
    → validate_payload cfg fetched ≡ ok valid
    → s.get_oauth_secret ≡ ok oauth
    → s.get_repo_secret ≡ ok secrets
    → ((p : Payload) (o : Oauth) → s.clone p o ≡ err e)
    → ((t : TaskPayload) → s.update_status t ≡ none)
    → start cfg s start_time end_time
      ≡ finished (record (get_task_payload cfg valid start_time) {
        end_time = end_time;
        status = failed;
        remark = "Unable to clone repo: " ⧺ valid.repo_link;
      })
unfolding start start_body final_status
clone_failure_reported cfg s a b fetched valid oauth secrets e discover covers fetch validate o r c
      u =
    let q = given_task cfg a valid in
    let t = get_task_payload cfg valid a in
    let refusal =
      prepare-refused cfg s q oauth secrets _ o r
        (clone-refused cfg s q oauth e discover (c q oauth)) in
    let last : last_report cfg s a b valid ≡ _ =
      ap (λ x. final_status (ended_at b (after_prepare cfg s q t x))) refusal in
    ap (start_fetched cfg s a b) fetch
    ∙ ap (start_valid cfg s a b) validate
    ∙ mode_off cfg.coverage_mode (merged (s.merge_and_upload valid)) (start_task cfg s a b valid)
        covers
    ∙ ap (λ x. report x (s.update_status x)) last
    ∙ ap (report _) (u _)
