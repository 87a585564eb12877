-- ===== src/Lifecycle.antt =====
-- pkg/core/lifecycle.go and `GetDriver` of pkg/driver/builder.go: the life of one task of nucleus.
-- The services that the pipeline calls are the interface `Services`; each may fail, and the calls that
-- run foreign code may panic. The task payload that the driver writes to is passed and returned. A
-- time is read once at the start and once at the end. In this file the goroutine of the first report has
-- ended before the body begins; Racing has every interleaving of the two. Environment has what `setEnv`
-- sets.
pub mod Reported
pub mod Environment
pub mod Racing
pub mod Tests
use test_at_scale.Prelude.{
  ℕ, zero, suc, String, ◌⧺◌, Bool, true, false, not, Option, none, some, List, [], ◌∷◌, Dict,
  str_eq, ◌==◌, if◌then◌else◌,
}
use test_at_scale.Errs.{
  Err, coded, error, sentinel, status_failed, canceled, foreign, message, generic, Result, ok, err,
  panicked, ◌>>=◌, ◌>>◌, check,
}
use test_at_scale.Models.{
  ℤ, pos, Payload, TaskPayload, Oauth, running, failed, aborted, errored, discovery_task,
  execution_task, flaky_task,
}
use test_at_scale.Format.{decimal}
use test_at_scale.PayloadManager.{NucleusConfig, validate_payload}

-- `core.Driver`: what becomes of the task payload, and the result.
pub record Driver : Type 0 where
  pub run_discovery :
      Payload → TaskPayload → Oauth → String → Dict String → TaskPayload × Result (Unit {0})
  pub run_execution :
      Payload → TaskPayload → Oauth → String → Dict String → TaskPayload × Result (Unit {0})

pub record Services : Type 0 where
  pub fetch_payload : String → Result Payload
  pub merge_and_upload : Payload → Option Err
  pub update_status : TaskPayload → Option Err
  pub get_oauth_secret : Result Oauth
  pub get_repo_secret : Result (Dict String)
  pub clone : Payload → Oauth → Result (Unit {0})
  pub extract_workspace : Result (Unit {0})
  pub create_if_not_exists : String → Option Err
  pub join : List String → String
  pub get_tas_config_file_path : Payload → Result String
  pub get_version : String → Result ℤ
  pub driver_v1 : String → Driver
  pub driver_v2 : String → Driver

-- How `Start` ends: the process stops with a message, it stops after the coverage was merged, or the
-- task was report for the last time.
pub data Outcome : Type 0 where
  fatal : String → Outcome
  covered : Outcome
  finished : TaskPayload → Outcome

-- `if err != nil { return f(err) }`
abbrev pub on_error {ℓ} : {A : Type ℓ} → Result A → (Err → Err) → Result A
on_error (ok a) f = ok a
on_error (err e) f = err (f e)
on_error panicked f = panicked

unfoldable pub get_driver : Services → ℤ → String → Result Driver
get_driver s (pos (suc zero)) path = ok (s.driver_v1 path)
get_driver s (pos (suc (suc zero))) path = ok (s.driver_v2 path)
get_driver s version path =
    err (error ("invalid version ( " ⧺ decimal version ⧺ " )  mentioned in yml file"))

unfoldable pub get_task_payload : NucleusConfig → Payload → ℕ → TaskPayload
get_task_payload cfg p start_time = record {
  task_id = p.task_id;
  status = running;
  repo_slug = p.repo_slug;
  repo_link = p.repo_link;
  repo_id = p.repo_id;
  org_id = p.org_id;
  git_provider = p.git_provider;
  commit_id = "";
  build_id = p.build_id;
  start_time = start_time;
  end_time = 0;
  remark = "";
  type =
      if cfg.discover_mode
      then discovery_task
      else if cfg.flaky_mode
      then flaky_task
      else execution_task;
}

abbrev pub coverage_dir : Services → Payload → String
coverage_dir s p =
    s.join ("/home/nucleus/repo/coverage" ∷ p.org_id ∷ p.repo_id ∷ p.build_target_commit ∷ [])

-- The workspace: cloned by the discovery, extracted from the cache by the execution.
unfoldable pub prepare_workspace : NucleusConfig → Services → Payload → Oauth → Result (Unit {0})
prepare_workspace cfg s p oauth =
    if cfg.discover_mode
    then on_error (s.clone p oauth) (λ e. status_failed ("Unable to clone repo: " ⧺ p.repo_link))
    else on_error s.extract_workspace (λ e. generic)

-- `Start` from the secrets to the driver.
unfoldable pub prepare : NucleusConfig → Services → Payload → Result (Oauth × Dict String × Driver)
unfolding get_driver
prepare cfg s p = do
  oauth ← s.get_oauth_secret
  secrets ← on_error s.get_repo_secret (λ e. generic)
  prepare_workspace cfg s p oauth
  on_error (check (if p.collect_coverage then s.create_if_not_exists (coverage_dir s p) else none))
      (λ e. generic)
  path ← s.get_tas_config_file_path p
  version ← on_error (s.get_version path) (λ e. status_failed (message e))
  driver ← get_driver s version path
  ok (oauth, secrets, driver)

abbrev pub run_driver :
    NucleusConfig
    → Services
    → Payload
    → TaskPayload
    → Oauth × Dict String × Driver
    → TaskPayload × Result (Unit {0})
run_driver cfg s p t (oauth, secrets, driver) =
    if cfg.discover_mode
    then driver.run_discovery p t oauth (coverage_dir s p) secrets
    else driver.run_execution p t oauth (coverage_dir s p) secrets

abbrev pub after_prepare :
    NucleusConfig
    → Services
    → Payload
    → TaskPayload
    → Result (Oauth × Dict String × Driver)
    → TaskPayload × Result (Unit {0})
after_prepare cfg s p t (ok ready) = run_driver cfg s p t ready
after_prepare cfg s p t (err e) = (t, err e)
after_prepare cfg s p t panicked = (t, panicked)

unfoldable pub start_body :
    NucleusConfig → Services → Payload → TaskPayload → TaskPayload × Result (Unit {0})
unfolding prepare
start_body cfg s p t = after_prepare cfg s p t (prepare cfg s p)

-- The deferred function: the status and the remark of a task that ended so.
unfoldable pub final_status : TaskPayload × Result (Unit {0}) → TaskPayload
final_status (t, ok r) = t
final_status (t, panicked) = record t { status = errored; remark = "Unexpected error" }
final_status (t, err (canceled text)) = record t { status = aborted; remark = "Task aborted" }
final_status (t, err (status_failed remark)) = record t { status = failed; remark = remark }
final_status (t, err e) = record t { status = errored; remark = message e }

abbrev pub report : TaskPayload → Option Err → Outcome
report t none = finished t
report t (some e) = fatal ("failed to update task status " ⧺ message e)

abbrev pub ended_at : ℕ → TaskPayload × Result (Unit {0}) → TaskPayload × Result (Unit {0})
ended_at end_time (t, r) = (record t { end_time = end_time }, r)

abbrev pub last_report : NucleusConfig → Services → ℕ → ℕ → Payload → TaskPayload
last_report cfg s start_time end_time p =
    let t = get_task_payload cfg p start_time in
    final_status (ended_at end_time (start_body cfg s (record p { task_type = t.type }) t))

abbrev pub start_task : NucleusConfig → Services → ℕ → ℕ → Payload → Outcome
start_task cfg s start_time end_time p =
    let t = last_report cfg s start_time end_time p in report t (s.update_status t)

abbrev pub merged : Option Err → Outcome
merged none = covered
merged (some e) = fatal ("error while merge and upload coverage files " ⧺ message e)

abbrev pub start_valid : NucleusConfig → Services → ℕ → ℕ → Result Payload → Outcome
start_valid cfg s start_time end_time (err e) =
    fatal ("error while validating payload " ⧺ message e)
start_valid cfg s start_time end_time panicked = fatal "panic"
start_valid cfg s start_time end_time (ok p) =
    if cfg.coverage_mode
    then merged (s.merge_and_upload p)
    else start_task cfg s start_time end_time p

abbrev pub start_fetched : NucleusConfig → Services → ℕ → ℕ → Result Payload → Outcome
start_fetched cfg s start_time end_time (err e) =
    fatal ("error while fetching payload: " ⧺ message e)
start_fetched cfg s start_time end_time panicked = fatal "panic"
start_fetched cfg s start_time end_time (ok p) =
    start_valid cfg s start_time end_time (validate_payload cfg p)

-- `Start`, in the order where the first report ends before the calls of the body.
unfoldable pub start : NucleusConfig → Services → ℕ → ℕ → Outcome
unfolding start_body final_status get_task_payload
start cfg s start_time end_time =
    start_fetched cfg s start_time end_time (s.fetch_payload cfg.payload_address)
