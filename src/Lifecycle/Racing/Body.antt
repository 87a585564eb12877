-- ===== src/Lifecycle/Racing/Body.antt =====
-- The body of `Start` of pkg/core/lifecycle.go as a script, and as what it comes to.
use test_at_scale.Prelude.{
  ◌≡◌, ◌↔◌, refl, sym, ap, ◌∙◌, subst, ℕ, Bool, true, false, Option, none, some, if◌then◌else◌,
  Dict, String,
}
use mathlib.Core.List.{Memᴰ}
use mathlib.Core.List.Memᴰ.{head, tail}
use test_at_scale.Errs.{
  Err, Result, ok, err, panicked, ◌>>=◌, check, generic, status_failed, message,
}
use test_at_scale.Models.{Payload, TaskPayload, Oauth}
use test_at_scale.PayloadManager.{NucleusConfig}
use test_at_scale.Lifecycle.{
  get_task_payload, Services, Driver, on_error, final_status, ended_at, start_body, prepare,
  after_prepare, run_driver, coverage_dir, get_driver,
}
use test_at_scale.Lifecycle.Racing.{
  Script, returns, panics, call, attempt, with_driver, with_workspace, body, run_alone, possible,
  at, waiting, state, Reports,
}
use test_at_scale.Lifecycle.Reported.{IsReported, given_task, body-IsReported}
use test_at_scale.Lifecycle.Racing.{over}
use test_at_scale.Lifecycle.Racing.Kept.{Out}
use test_at_scale.Lifecycle.Racing.Ends.{
  over-Reports, run_alone-drive, Reports-possible, run_alone-Reports,
}

module _ (lost : ℕ → Script) (cfg : NucleusConfig) (s : Services) (p : Payload)
    (t : TaskPayload) where
  attempt-bind :
      {A : Type 0} (again : Bool) (r : Result A) (rest : A → Script) (other : Script)
      (g : A → Result (Oauth × Dict String × Driver))
      → ((a : A) → run_alone (rest a) t ≡ after_prepare cfg s p t (g a))
      → run_alone (attempt t again r rest other) t ≡ after_prepare cfg s p t (r >>= g)
  unfolding run_alone
  attempt-bind again (ok a) rest other g h = h a
  attempt-bind again (err e) rest other g h = refl
  attempt-bind again panicked rest other g h = refl

  attempt-if :
      (asked : Bool) (e : Option Err) (rest other : Script)
      (g : Result (Oauth × Dict String × Driver))
      → run_alone rest t ≡ after_prepare cfg s p t g
      → run_alone
          (if asked
            then attempt t false (on_error (check e) (λ x. generic)) (λ u. rest) other
            else rest)
          t
        ≡ after_prepare cfg s p t
            (on_error (check (if asked then e else none)) (λ x. generic) >>= λ u. g)
  attempt-if true e rest other g h = attempt-bind false _ (λ u. rest) other (λ u. g) (λ u. h)
  attempt-if false e rest other g h = h

  abbrev configured : Oauth → Dict String → Result (Oauth × Dict String × Driver)
  configured oauth secrets = do
    path ← s.get_tas_config_file_path p
    version ← on_error (s.get_version path) (λ e. status_failed (message e))
    driver ← get_driver s version path
    ok (oauth, secrets, driver)

  run_alone-with_driver :
      (oauth : Oauth) (secrets : Dict String)
      → run_alone (with_driver lost cfg s p t oauth secrets) t
        ≡ after_prepare cfg s p t (configured oauth secrets)
  run_alone-with_driver oauth secrets = attempt-bind _ _ _ _ _ (λ path.
      attempt-bind _ _ _ _ _ (λ version.
        attempt-bind _ _ _ _ _
          (λ driver. run_alone-drive (run_driver cfg s p t (oauth, secrets, driver)) t)))

  run_alone-with_workspace :
      (oauth : Oauth) (secrets : Dict String)
      → run_alone (with_workspace lost cfg s p t oauth secrets) t
        ≡ after_prepare cfg s p t (
            on_error
              (check
                (if p.collect_coverage then s.create_if_not_exists (coverage_dir s p) else none))
              (λ e. generic)
            >>= λ u. configured oauth secrets)
  run_alone-with_workspace oauth secrets =
      attempt-if p.collect_coverage (s.create_if_not_exists (coverage_dir s p))
        (with_driver lost cfg s p t oauth secrets) (lost 3) (configured oauth secrets)
        (run_alone-with_driver oauth secrets)

  -- Without the goroutine the script comes to what `Start` does.
  pub run_alone-body : run_alone (body lost cfg s p t) t ≡ start_body cfg s p t
  unfolding body start_body prepare
  run_alone-body = attempt-bind _ _ _ _ _ (λ oauth.
      attempt-bind _ _ _ _ _
        (λ secrets. attempt-bind _ _ _ _ _ (λ u. run_alone-with_workspace oauth secrets)))

-- An outcome without an error is the only possible one.
possible-ok :
    (c : Script) (t : TaskPayload) (out : Out) (t' : TaskPayload)
    → run_alone c t ≡ (t', ok tt)
    → Memᴰ out (possible c t)
    → out ≡ (t', ok tt)
unfolding run_alone possible
possible-ok returns t out t' done (head same) = same ∙ done
possible-ok returns t out t' done (tail m) = elim m [ ]
possible-ok (panics u) t out t' done h = cc
possible-ok (call u again none rest) t out t' done h = possible-ok rest u out t' done h
possible-ok (call u false (some x) rest) t out t' done h = cc
possible-ok (call u true (some x) rest) t out t' done h = cc

-- However the goroutine that sends the first report runs beside the body: if the reports are accepted and
-- the body, taken alone, ends without an error, then the task payload that the driver left is the
-- only one that can be reported last, with the time of the end, and it can be.
pub Reports-start_body :
    (lost : ℕ → Script) (cfg : NucleusConfig) (s : Services) (p : Payload) (end_time : ℕ)
    (t t' last : TaskPayload)
    → ((x : TaskPayload) → s.update_status x ≡ none)
    → start_body cfg s p t ≡ (t', ok tt)
    → Reports s.update_status end_time (state (at (body lost cfg s p t)) none t waiting) last
      ↔ (last ≡ record t' { end_time = end_time })
unfolding final_status
Reports-start_body lost cfg s p end_time t t' last accepts done =
    let c = body lost cfg s p t in
    let alone : run_alone c t ≡ (t', ok tt) = run_alone-body lost cfg s p t ∙ done in
    (
      λ r.
          let (out, allowed, same) =
            (Reports-possible s.update_status end_time accepts c t last).0 r in
          same
          ∙ ap (λ o. final_status (ended_at end_time o)) (possible-ok c t out t' alone allowed),
      λ same.
          subst (Reports s.update_status end_time (state (at c) none t waiting))
            (ap (λ o. final_status (ended_at end_time o)) alone ∙ sym same)
            (run_alone-Reports s.update_status end_time c t waiting),
    )

-- However the services answer, fail or panic: if the goroutine of the first report has ended before the
-- body begins, and the reports are accepted, then either the status that is reported last is aborted,
-- failed or error, or every preparation succeeded, a driver ran on the payload without an error, and the
-- status is the one that the driver left.
pub Reports-IsReported :
    (lost : ℕ → Script) (cfg : NucleusConfig) (s : Services) (start_time end_time : ℕ) (p : Payload)
    (last : TaskPayload)
    → ((x : TaskPayload) → s.update_status x ≡ none)
    → let t = get_task_payload cfg p start_time in
      Reports s.update_status end_time
        (state (at (body lost cfg s (given_task cfg start_time p) t)) none t over)
        last
      → IsReported cfg s start_time p last
unfolding start_body
Reports-IsReported lost cfg s a b p last accepts r =
    let q = given_task cfg a p in
    let t = get_task_payload cfg p a in
    let c = body lost cfg s q t in
    let same =
      over-Reports s.update_status b accepts c t last r
      ∙ ap (λ o. final_status (ended_at b o)) (run_alone-body lost cfg s q t) in
    subst (IsReported cfg s a p) (sym same) (body-IsReported cfg s q t b (prepare cfg s q) refl)
