-- ===== src/Lifecycle/Racing.antt =====
-- The first report of pkg/core/lifecycle.go: `Start` sends it from a goroutine, which shares the
-- variable `err` and the task payload with the body and with the deferred function, without a lock.
-- The body is a script of its calls, each of which assigns `err`, which is tested by a step of its own.
-- What the body does after a test that missed an error is any script. The error is assigned as it is
-- reported; where the source reads `err` again to translate it, that is a step of its own too, and so
-- are the test and the later reads of the deferred function, on which a nil that came in between panics.
pub mod Kept
pub mod Ends
pub mod Body
use test_at_scale.Prelude.{
  ℕ, String, Option, none, some, List, [], ◌∷◌, Dict, if◌then◌else◌, ◌≡◌, Bool, true, false,
}
use test_at_scale.Errs.{Err, status_failed, message, generic, Result, ok, err, panicked, check}
use test_at_scale.Models.{Payload, TaskPayload, Oauth}
use test_at_scale.PayloadManager.{NucleusConfig}
use test_at_scale.Lifecycle.{
  Services, Driver, on_error, prepare_workspace, coverage_dir, get_driver, run_driver, final_status,
  ended_at,
}

-- A call leaves a task payload and an error, which is read again after the test or not; the rest is what
-- comes when the test reads nil.
pub data Script : Type 0 where
  returns : Script
  panics : TaskPayload → Script
  call : TaskPayload → Bool → Option Err → Script → Script

abbrev pub attempt {ℓ} :
    {A : Type ℓ} → TaskPayload → Bool → Result A → (A → Script) → Script → Script
attempt t again (ok a) rest lost = call t again none (rest a)
attempt t again (err e) rest lost = call t again (some e) lost
attempt t again panicked rest lost = panics t

-- The driver's call is the last one.
abbrev pub drive : TaskPayload × Result (Unit {0}) → Script
drive (t, r) = attempt t false r (λ u. returns) returns

-- `Start` after the first report; `lost` is what it does after each of the errors that it misses.
module _ (lost : ℕ → Script) (cfg : NucleusConfig) (s : Services) (p : Payload)
    (t : TaskPayload) where
  abbrev pub with_driver : Oauth → Dict String → Script
  with_driver oauth secrets =
      attempt t false (s.get_tas_config_file_path p)
        (λ path.
          attempt t true (on_error (s.get_version path) (λ e. status_failed (message e)))
            (λ version.
              attempt t false (get_driver s version path)
                (λ driver. drive (run_driver cfg s p t (oauth, secrets, driver))) (lost 6))
            (lost 5))
        (lost 4)

  abbrev pub with_workspace : Oauth → Dict String → Script
  with_workspace oauth secrets =
      if p.collect_coverage
      then attempt t false
          (on_error (check (s.create_if_not_exists (coverage_dir s p))) (λ e. generic))
          (λ u. with_driver oauth secrets) (lost 3)
      else with_driver oauth secrets

  unfoldable pub body : Script
  unfolding get_driver prepare_workspace
  body =
      attempt t false s.get_oauth_secret
        (λ oauth.
          attempt t false (on_error s.get_repo_secret (λ e. generic))
            (λ secrets.
              attempt t false (prepare_workspace cfg s p oauth) (λ u. with_workspace oauth secrets)
                (lost 2))
            (lost 1))
        (lost 0)

-- What the body comes to when nothing else writes to `err`.
unfoldable pub run_alone : Script → TaskPayload → TaskPayload × Result (Unit {0})
run_alone returns t = (t, ok tt)
run_alone (panics t') t = (t', panicked)
run_alone (call t' again none rest) t = run_alone rest t'
run_alone (call t' again (some e) rest) t = (t', err e)

-- What it may come to when one nil is written in between: the same, no error at all, what comes after
-- the error was missed, or a panic where the error is read again.
unfoldable pub possible : Script → TaskPayload → List (TaskPayload × Result (Unit {0}))
unfolding run_alone
possible returns t = (t, ok tt) ∷ []
possible (panics t') t = (t', panicked) ∷ []
possible (call t' again none rest) t = possible rest t'
possible (call t' false (some e) rest) t = (t', err e) ∷ (t', ok tt) ∷ run_alone rest t' ∷ []
possible (call t' true (some e) rest) t =
    (t', err e) ∷ (t', ok tt) ∷ run_alone rest t' ∷ (t', panicked) ∷ []

pub data Main : Type 0 where
  at : Script → Main
  testing : Bool → Script → Main
  translating : Main
  returned : Main
  recovered : Main
  reporting : Err → Main
  ended : TaskPayload → Main
  exited : Main

pub data First : Type 0 where
  waiting : First
  answered : Option Err → First
  assigned : First
  over : First

-- The body, the shared `err`, the shared task payload, and the goroutine.
pub data State : Type 0 where
  state : Main → Option Err → TaskPayload → First → State

-- The steps of the body and of the deferred function.
pub data Moves (end_time : ℕ)
    : Main → Option Err → TaskPayload → Main → Option Err → TaskPayload → Type 0 where
  calls :
      {t t' : TaskPayload} {again : Bool} {e a : Option Err} {rest : Script}
      → Moves end_time (at (call t' again a rest)) e t (testing again rest) a t'
  goes_on :
      {t : TaskPayload} {again : Bool} {rest : Script}
      → Moves end_time (testing again rest) none t (at rest) none t
  fails :
      {t : TaskPayload} {e : Err} {rest : Script}
      → Moves end_time (testing false rest) (some e) t returned (some e) t
  reads_again :
      {t : TaskPayload} {e : Err} {rest : Script}
      → Moves end_time (testing true rest) (some e) t translating (some e) t
  translates :
      {t : TaskPayload} {e : Err} → Moves end_time translating (some e) t returned (some e) t
  breaks_on_nil : {t : TaskPayload} → Moves end_time translating none t recovered none t
  ends : {t : TaskPayload} {e : Option Err} → Moves end_time (at returns) e t returned e t
  breaks :
      {t t' : TaskPayload} {e : Option Err} → Moves end_time (at (panics t')) e t recovered e t'
  reports :
      {t : TaskPayload}
      → Moves end_time returned none t (ended (final_status (ended_at end_time (t, ok tt)))) none t
  reads_error :
      {t : TaskPayload} {e : Err} → Moves end_time returned (some e) t (reporting e) (some e) t
  reports_error :
      {t : TaskPayload} {e : Err} {now : Option Err}
      → Moves end_time
          (reporting e)
          now
          t
          (ended (final_status (ended_at end_time (t, err e))))
          now
          t
  crashes : {t : TaskPayload} {e : Err} → Moves end_time (reporting e) none t exited none t
  reports_panic :
      {t : TaskPayload} {e : Option Err}
      → Moves end_time recovered e t (ended (final_status (ended_at end_time (t, panicked)))) e t

-- The reports are answered by `send`. An error that the goroutine reads ends the process.
pub data Step (send : TaskPayload → Option Err) (end_time : ℕ) : State → State → Type 0 where
  moves :
      {m m' : Main} {e e' : Option Err} {t t' : TaskPayload} {f : First}
      → Moves end_time m e t m' e' t'
      → Step send end_time (state m e t f) (state m' e' t' f)
  sends :
      {m : Main} {t : TaskPayload} {e a : Option Err}
      → send t ≡ a
      → Step send end_time (state m e t waiting) (state m e t (answered a))
  assigns :
      {m : Main} {t : TaskPayload} {e a : Option Err}
      → Step send end_time (state m e t (answered a)) (state m a t assigned)
  stops :
      {m : Main} {t : TaskPayload}
      → Step send end_time (state m none t assigned) (state m none t over)
  kills :
      {m : Main} {t : TaskPayload} {e : Err}
      → Step send end_time (state m (some e) t assigned) (state exited (some e) t over)

pub data Steps (send : TaskPayload → Option Err) (end_time : ℕ) : State → State → Type 0 where
  no_step : {a : State} → Steps send end_time a a
  step_then :
      {a b c : State} → Step send end_time a b → Steps send end_time b c → Steps send end_time a c

-- The task payloads that may be reported last.
abbrev pub Reports : (TaskPayload → Option Err) → ℕ → State → TaskPayload → Type 0
Reports send end_time a last =
    (e : Option Err) × (t : TaskPayload) × (f : First) × Steps send end_time a
      (state (ended last) e t f)
