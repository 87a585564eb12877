-- ===== src/Driver/Finish.antt =====
-- The drivers of pkg/driver as the life cycle of pkg/core/lifecycle.go uses them: `driver_v1` and
-- `driver_v2` fill its interface `Driver`, and a task ends by its deferred function.
use test_at_scale.Prelude.{
  subst, Option, none, String, ◌≡◌, ◌≢◌, ◌↔◌, inl, inr, refl, sym, ap, ◌∙◌, true, false, Dict, ℕ,
  str_eq,
}
use test_at_scale.Lifecycle.Racing.{at, over, state, drive, Reports}
use test_at_scale.Lifecycle.Racing.Ends.{over-Reports, run_alone-drive}
use test_at_scale.Errs.{Err, Result, ok, err, panicked}
use test_at_scale.Models.{Payload, TaskPayload, Oauth, passed, failed, aborted, errored}
use test_at_scale.Lifecycle.{Driver, final_status, ended_at}
use test_at_scale.Lifecycle.Reported.{IsFailure, final_status-cases}
use test_at_scale.Driver.Actions.{World, Outside}
use test_at_scale.Driver.Ends.{Ended}
use test_at_scale.Driver.V1.{run_discovery, run_execution}
use test_at_scale.Driver.V1.Success.{run_discovery-Ended}
use test_at_scale.Driver.V2.Execution.{run_execution_v2}
use test_at_scale.Driver.V2.{Schedule, run_discovery_v2}
use test_at_scale.Driver.V2.Status.{run_discovery_v2-passed}

abbrev pub with_task : World → TaskPayload → World
with_task w t = record w { task = t }

abbrev pub outcome : World × Result (Unit {0}) → TaskPayload × Result (Unit {0})
outcome (w, r) = (w.task, r)

unfoldable pub driver_v1 : Outside → World → String → Driver
driver_v1 o w path =
    let here : Outside = record o { tas_file_path = path } in
    record {
      run_discovery =
          λ p t oauth dir secrets. outcome (run_discovery here p oauth secrets (with_task w t));
      run_execution =
          λ p t oauth dir secrets. outcome (run_execution here p dir secrets (with_task w t));
    }

unfoldable pub driver_v2 : Outside → Schedule → World → String → Driver
driver_v2 o s w path =
    let here : Outside = record o { tas_file_path = path } in
    record {
      run_discovery = λ p t oauth dir secrets.
          outcome (run_discovery_v2 here s p oauth secrets (with_task w t));
      run_execution =
          λ p t oauth dir secrets. outcome (run_execution_v2 here p dir secrets (with_task w t));
    }

-- The task that is reported when the driver ended so.
abbrev pub reported_task : ℕ → TaskPayload × Result (Unit {0}) → TaskPayload
reported_task end_time r = final_status (ended_at end_time r)

apart : (status : String) → str_eq status passed ≡ false → status ≢ passed
apart status differ h =
    let impossible : false ≡ true = sym differ ∙ ap (λ s. str_eq s passed) h in cc

IsFailure-apart : (status : String) → IsFailure status → status ≢ passed
IsFailure-apart status (inl h) e = apart aborted refl (sym h ∙ e)
IsFailure-apart status (inr (inl h)) e = apart failed refl (sym h ∙ e)
IsFailure-apart status (inr (inr h)) e = apart errored refl (sym h ∙ e)

only_success :
    (end_time : ℕ) (t : TaskPayload) (r : Result (Unit {0}))
    → (reported_task end_time (t, r)).status ≡ passed
    → r ≡ ok tt
only_success end_time t r h = elim (final_status-cases (record t { end_time = end_time }) r) [
  | inl failure ↦ absurd (IsFailure-apart _ failure h)
  | inr (success, same) ↦ success
]

passes_v1 :
    (end_time : ℕ) (t : TaskPayload) (r : World × Result (Unit {0}))
    → Ended t r
    → r.1 ≡ ok tt
    → (reported_task end_time (outcome r)).status ≡ passed
unfolding final_status
passes_v1 end_time t (w, ok u) e h = ap (λ t. t.status) e
passes_v1 end_time t (w, err x) e h = cc
passes_v1 end_time t (w, panicked) e h = cc

passes_v2 :
    (end_time : ℕ) (t : TaskPayload) (r : World × Result (Unit {0}))
    → ((w' : World) → r ≡ (w', ok tt) → w'.task ≡ record t { status = passed })
    → r.1 ≡ ok tt
    → (reported_task end_time (outcome r)).status ≡ passed
unfolding final_status
passes_v2 end_time t (w, ok u) e h = ap (λ t. t.status) (e w refl)
passes_v2 end_time t (w, err x) e h = cc
passes_v2 end_time t (w, panicked) e h = cc

module _ (o : Outside) (s : Schedule) (w : World) (path : String) (end_time : ℕ) (p : Payload)
    (t : TaskPayload) (oauth : Oauth) (dir : String) (secrets : Dict String) where
  reported_of :
      (send : TaskPayload → Option Err)
      → ((x : TaskPayload) → send x ≡ none)
      → (r : TaskPayload × Result (Unit {0})) (last : TaskPayload)
      → Reports send end_time (state (at (drive r)) none t over) last
      → last ≡ reported_task end_time r
  reported_of send accepts r last h =
      over-Reports send end_time accepts (drive r) t last h
      ∙ ap (reported_task end_time) (run_alone-drive r t)

  reported_task-passed :
      (((reported_task end_time ((driver_v1 o w path).run_discovery p t oauth dir secrets)).status
          ≡ passed)
        ↔ (((driver_v1 o w path).run_discovery p t oauth dir secrets).1 ≡ ok tt))
      × (((reported_task end_time
              ((driver_v2 o s w path).run_discovery p t oauth dir secrets)).status
            ≡ passed)
          ↔ (((driver_v2 o s w path).run_discovery p t oauth dir secrets).1 ≡ ok tt))
  unfolding driver_v1 driver_v2
  reported_task-passed =
      let here : Outside = record o { tas_file_path = path } in
      let r1 = run_discovery here p oauth secrets (with_task w t) in
      let r2 = run_discovery_v2 here s p oauth secrets (with_task w t) in
      (
        (
          only_success end_time r1.0.task r1.1,
          passes_v1 end_time t r1 (run_discovery-Ended here p oauth secrets (with_task w t)),
        ),
        (
          only_success end_time r2.0.task r2.1,
          passes_v2 end_time t r2
              (λ w'. run_discovery_v2-passed here s p oauth secrets (with_task w t) w' tt),
        ),
      )

  -- With either driver, if the goroutine of the first report has ended before the driver is called, and
  -- the reports are accepted: the discovery task that is reported last has the status passed exactly when
  -- the discovery ended without an error and without a panic.
  pub reported_passed :
      (send : TaskPayload → Option Err) (first second : TaskPayload)
      → ((x : TaskPayload) → send x ≡ none)
      → let r1 = (driver_v1 o w path).run_discovery p t oauth dir secrets in
        let r2 = (driver_v2 o s w path).run_discovery p t oauth dir secrets in
        Reports send end_time (state (at (drive r1)) none t over) first
        → Reports send end_time (state (at (drive r2)) none t over) second
        → ((first.status ≡ passed) ↔ (r1.1 ≡ ok tt)) × ((second.status ≡ passed) ↔ (r2.1 ≡ ok tt))
  reported_passed send first second accepts h1 h2 =
      let r1 = (driver_v1 o w path).run_discovery p t oauth dir secrets in
      let r2 = (driver_v2 o s w path).run_discovery p t oauth dir secrets in
      let ended = reported_of send accepts in
      let (v1, v2) = reported_task-passed in
      (
        subst (λ x. (x.status ≡ passed) ↔ (r1.1 ≡ ok tt)) (sym (ended r1 first h1)) v1,
        subst (λ x. (x.status ≡ passed) ↔ (r2.1 ≡ ok tt)) (sym (ended r2 second h2)) v2,
      )
