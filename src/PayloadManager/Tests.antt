-- ===== src/PayloadManager/Tests.antt =====
-- A payload that is accepted, in discovery mode.
use test_at_scale.Prelude.{◌≡◌, ◌↔◌, refl, true, false, [], ◌∷◌}
use test_at_scale.Errs.{ok, got}
use test_at_scale.Models.{Payload, pos, github, event_push, small, CommitChangeList}
use test_at_scale.Requests.{make_api_request, retry}
use test_at_scale.Requests.Tests.{web}
use test_at_scale.PayloadManager.{
  NucleusConfig, validate_payload, payload_checks, completed, fetch_payload,
}
use test_at_scale.PayloadManager.Valid.{IsComplete, with_configuration, validate_payload-ok}

abbrev pub discovery : NucleusConfig
discovery = record {
  payload_address = "https://x";
  coverage_mode = false;
  discover_mode = true;
  flaky_mode = false;
  task_id = "t1";
  locators = "";
  locator_address = "";
  sub_module = "";
  env = "prod";
}

abbrev pub commit : CommitChangeList
commit = record { sha = "c"; link = ""; added = []; removed = []; modified = []; message = "" }

abbrev pub payload : Payload
payload = record {
  repo_slug = "a/b";
  fork_slug = "";
  repo_link = "https://github.com/a/b";
  build_target_commit = "c";
  build_base_commit = "";
  task_id = "";
  branch_name = "main";
  build_id = "b1";
  repo_id = "r1";
  org_id = "o1";
  git_provider = github;
  private_repo = false;
  event_type = event_push;
  diff = "";
  pull_request_number = pos 0;
  commits = commit ∷ [];
  tas_file_name = ".tas.yml";
  locators = "";
  locator_address = "";
  parent_commit_coverage_exists = false;
  license_tier = small;
  collect_coverage = false;
  task_type = "";
}

pub accepts : validate_payload discovery payload ≡ ok (completed discovery payload)
unfolding validate_payload payload_checks
accepts = refl

validate_payload-ok_example :
    (validate_payload discovery payload ≡ ok (with_configuration discovery payload))
    ↔ IsComplete discovery payload
validate_payload-ok_example = validate_payload-ok discovery payload

fetches : fetch_payload web (λ body. got payload) "https://x" ≡ ok payload
unfolding fetch_payload make_api_request retry
fetches = refl
