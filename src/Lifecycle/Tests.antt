-- ===== src/Lifecycle/Tests.antt =====
-- A discovery whose clone fails, and one that ends well.
use mathlib.Core.List.{Memᴰ}
use mathlib.Core.List.Memᴰ.{head, tail}
use test_at_scale.Prelude.{◌≡◌, ◌↔◌, refl, false, none, [], ◌∷◌, String, Dict, lookup, insert}
use test_at_scale.Errs.{Result, ok, err, error}
use test_at_scale.Models.{Payload, TaskPayload, Oauth, pos, bearer, passed}
use test_at_scale.PayloadManager.{completed, payload_checks, validate_payload}
use test_at_scale.PayloadManager.Tests.{discovery, payload}
use test_at_scale.Format.{or_empty}
use test_at_scale.Lifecycle.Environment.{set_env, getenv}
use test_at_scale.Lifecycle.{
  Driver, Services, finished, start, start_body, prepare, prepare_workspace, get_driver,
  final_status, get_task_payload, ended_at,
}
use test_at_scale.Lifecycle.Racing.{
  Script, returns, body, possible, at, waiting, over, state, Reports, run_alone,
}
use test_at_scale.Lifecycle.Racing.Ends.{Reports-possible, run_alone-Reports}
use test_at_scale.Lifecycle.Racing.Body.{Reports-start_body, Reports-IsReported}
use test_at_scale.Lifecycle.Reported.{IsReported, given_task, start-IsReported}

abbrev oauth : Oauth
oauth = record { access_token = "t"; expiry = 0; refresh_token = ""; type = bearer }

abbrev driver : Driver
driver = record {
  run_discovery = λ p t o c s. (record t { status = passed }, ok tt);
  run_execution = λ p t o c s. (record t { status = passed }, ok tt);
}

abbrev pub services : Result (Unit {0}) → Services
services clones = record {
  fetch_payload = λ _. ok payload;
  merge_and_upload = λ _. none;
  update_status = λ _. none;
  get_oauth_secret = ok oauth;
  get_repo_secret = ok [];
  clone = λ _ _. clones;
  extract_workspace = ok tt;
  create_if_not_exists = λ _. none;
  join = λ _. "/coverage";
  get_tas_config_file_path = λ _. ok ".tas.yml";
  get_version = λ _. ok (pos 2);
  driver_v1 = λ _. driver;
  driver_v2 = λ _. driver;
}

abbrev valid : Payload
valid = completed discovery payload

abbrev passing : TaskPayload
passing = record (get_task_payload discovery valid 5) { end_time = 9; status = passed }

passes : start discovery (services (ok tt)) 5 9 ≡ finished passing
unfolding start start_body prepare prepare_workspace get_driver final_status validate_payload
    payload_checks completed
passes = refl

is_reported :
    (false ≡ false)
    × (fetched : Payload) × (v : Payload) × (ok payload ≡ ok fetched)
    × (validate_payload discovery fetched ≡ ok v)
    × IsReported discovery (services (ok tt)) 5 v passing
is_reported = start-IsReported discovery (services (ok tt)) 5 9 passing passes

abbrev shell_env : Dict String
shell_env = ("TASK_ID", "old") ∷ ("PATH", "/bin") ∷ []

exported_task :
    getenv
      (set_env (record { env = "prod"; sub_module = "" }) payload "/coverage" shell_env)
      "TASK_ID"
    ≡ payload.task_id
unfolding set_env lookup or_empty insert
exported_task = refl

abbrev begun : TaskPayload
begun = get_task_payload discovery valid 5

-- A clone that fails.
abbrev unclonable : Script
unclonable = body (λ k. returns) discovery (services (err (error "no network"))) valid begun

Reports-possible_example :
    Reports (λ t. none) 9 (state (at unclonable) none begun waiting) (record begun { end_time = 9 })
    ↔ ((out : TaskPayload × Result (Unit {0})) × Memᴰ out (possible unclonable begun)
        × (record begun { end_time = 9 } ≡ final_status (ended_at 9 out)))
Reports-possible_example =
    Reports-possible (λ t. none) 9 (λ t. refl) unclonable begun (record begun { end_time = 9 })

-- The task of the clone that fails may be reported as it began, with the status of a running one.
stays_running :
    Reports (λ t. none) 9 (state (at unclonable) none begun waiting) (record begun { end_time = 9 })
unfolding body possible final_status
stays_running = Reports-possible_example.1 ((begun, ok tt), tail (head refl), refl)

abbrev ran : TaskPayload
ran = record begun { status = passed }

runs : start_body discovery (services (ok tt)) valid begun ≡ (ran, ok tt)
unfolding start_body prepare prepare_workspace get_driver completed get_task_payload
runs = refl

Reports-start_body_example :
    Reports
      (λ t. none)
      9
      (state (at (body (λ k. returns) discovery (services (ok tt)) valid begun)) none begun waiting)
      (record ran { end_time = 9 })
    ↔ (record ran { end_time = 9 } ≡ record ran { end_time = 9 })
Reports-start_body_example =
    Reports-start_body (λ k. returns) discovery (services (ok tt)) valid 9 begun ran
      (record ran { end_time = 9 }) (λ t. refl) runs

Reports-IsReported_example : IsReported discovery (services (ok tt)) 5 valid (
    final_status (
      ended_at 9 (
        run_alone
          (body (λ k. returns) discovery (services (ok tt)) (given_task discovery 5 valid) begun)
          begun)))
Reports-IsReported_example =
    Reports-IsReported (λ k. returns) discovery (services (ok tt)) 5 9 valid _ (λ t. refl)
      (run_alone-Reports (λ t. none) 9
        (body (λ k. returns) discovery (services (ok tt)) (given_task discovery 5 valid) begun)
        begun over)
