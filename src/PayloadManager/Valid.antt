-- ===== src/PayloadManager/Valid.antt =====
-- Which payloads pkg/payloadmanager/setup.go accepts.
use test_at_scale.Prelude.{
  String, ◌≡◌, ◌≢◌, ◌↔◌, ◌⊎◌, inl, inr, refl, sym, ap, ◌∙◌, if◌then◌else◌, Bool, true, false, not,
  ◌&&◌, arith, length, str_eq, eq_iff, ◌==◌, Bool-cases, List, [], ◌∷◌, All,
}
use mathlib.Core.Bool.{true≢false}
use test_at_scale.Errs.{Result, ok, err, panicked, Err, ◌>>◌}
use test_at_scale.Models.{Payload, event_push, event_pull_request}
use test_at_scale.PayloadManager.{
  NucleusConfig, validate_payload, payload_checks, refuse_first, completed, is_empty,
}

-- What nucleus needs to know of a task.
pub record IsComplete (cfg : NucleusConfig) (p : Payload) : Type 0 where
  pub repo_link : p.repo_link ≢ ""
  pub repo_slug : p.repo_slug ≢ ""
  pub git_provider : p.git_provider ≢ ""
  pub build_id : p.build_id ≢ ""
  pub repo_id : p.repo_id ≢ ""
  pub branch_name : p.branch_name ≢ ""
  pub org_id : p.org_id ≢ ""
  pub tas_file_name : p.tas_file_name ≢ ""
  pub build_target_commit : p.build_target_commit ≢ ""
  pub task : cfg.coverage_mode ≡ false → cfg.task_id ≢ ""
  pub event : (p.event_type ≡ event_push) ⊎ (p.event_type ≡ event_pull_request)
  pub commits : p.event_type ≡ event_push → length p.commits ≢ 0

refuse_first-ok :
    (checks : List (Bool × Err)) → (refuse_first checks ≡ ok tt) ↔ All (λ c. c.0 ≡ false) checks
refuse_first-ok [] = (λ h. tt, λ h. refl)
refuse_first-ok ((true, e) ∷ checks) = (λ h. cc, λ h. absurd (true≢false h.0))
refuse_first-ok ((false, e) ∷ checks) =
    (λ h. (refl, (refuse_first-ok checks).0 h), λ h. (refuse_first-ok checks).1 h.1)

>>-ok : {A : Type 0} (m : Result (Unit {0})) (a b : A) → (m >> ok a) ≡ ok b → (m ≡ ok tt) × (a ≡ b)
>>-ok (ok unit) a b h = (refl, cc)
>>-ok (err e) a b h = cc
>>-ok panicked a b h = cc

present : (s : String) → (is_empty s ≡ false) ↔ (s ≢ "")
present s = (λ h e. absurd (ground (arith, eq_iff s "")), λ h. ground (arith, eq_iff s ""))

task_test :
    (cfg : NucleusConfig)
    → ((not cfg.coverage_mode && is_empty cfg.task_id) ≡ false)
      ↔ (cfg.coverage_mode ≡ false → cfg.task_id ≢ "")
task_test cfg = (
  λ h e. (present cfg.task_id).0 (rw e at h),
  λ h. elim (Bool-cases cfg.coverage_mode) [
    | inl on ↦ rw on refl
    | inr off ↦ rw off ((present cfg.task_id).1 (h off))
  ],
)

event_test :
    (e : String)
    → ((not (str_eq e event_push) && not (str_eq e event_pull_request)) ≡ false)
      ↔ ((e ≡ event_push) ⊎ (e ≡ event_pull_request))
event_test e = (
  λ h. elim (Bool-cases (str_eq e event_push)) [
    | inl push ↦ inl ((eq_iff e event_push).0 push)
    | inr other ↦ inr ((eq_iff e event_pull_request).0 (ground arith))
  ],
  λ h. ground (arith, eq_iff e event_push, eq_iff e event_pull_request),
)

commits_test :
    (p : Payload)
    → ((str_eq p.event_type event_push && (length p.commits == 0)) ≡ false)
      ↔ (p.event_type ≡ event_push → length p.commits ≢ 0)
commits_test p = (
  λ h push none_left. absurd (ground (arith, eq_iff p.event_type event_push)),
  λ h. elim (Bool-cases (str_eq p.event_type event_push)) [
    | inr other ↦ rw other refl
    | inl push ↦ let some_left = h ((eq_iff p.event_type event_push).0 push) in ground arith
  ],
)

-- The payload as it was, but for what the configuration gives.
abbrev pub with_configuration : NucleusConfig → Payload → Payload
with_configuration cfg p = record p {
  task_id = if cfg.coverage_mode then p.task_id else cfg.task_id;
  locators = if str_eq cfg.locators "" then p.locators else cfg.locators;
  locator_address =
      if str_eq cfg.locator_address "" then p.locator_address else cfg.locator_address;
}

by_tests :
    (cfg : NucleusConfig) (p : Payload) (covers no_locators no_address : Bool)
    → let located : Payload = record p {
      locators = if not no_locators then cfg.locators else p.locators;
      locator_address = if not no_address then cfg.locator_address else p.locator_address;
    } in
      ◌≡◌ {A = Payload}
        (if not covers then record located { task_id = cfg.task_id } else located)
        (record p {
          task_id = if covers then p.task_id else cfg.task_id;
          locators = if no_locators then p.locators else cfg.locators;
          locator_address = if no_address then p.locator_address else cfg.locator_address;
        })
by_tests cfg p true true true = refl
by_tests cfg p true true false = refl
by_tests cfg p true false true = refl
by_tests cfg p true false false = refl
by_tests cfg p false true true = refl
by_tests cfg p false true false = refl
by_tests cfg p false false true = refl
by_tests cfg p false false false = refl

completed-with_configuration :
    (cfg : NucleusConfig) (p : Payload) → completed cfg p ≡ with_configuration cfg p
unfolding completed
completed-with_configuration cfg p =
    by_tests cfg p cfg.coverage_mode (is_empty cfg.locators) (is_empty cfg.locator_address)

accepted_completed :
    (cfg : NucleusConfig) (p : Payload)
    → (validate_payload cfg p ≡ ok (completed cfg p)) ↔ IsComplete cfg p
unfolding validate_payload payload_checks
accepted_completed cfg p = (
  λ h.
      let c =
        (refuse_first-ok (payload_checks cfg p)).0
          (>>-ok (refuse_first (payload_checks cfg p)) (completed cfg p) (completed cfg p) h).0 in
      record {
        repo_link = (present p.repo_link).0 c.0;
        repo_slug = (present p.repo_slug).0 c.1.0;
        git_provider = (present p.git_provider).0 c.1.1.0;
        build_id = (present p.build_id).0 c.1.1.1.0;
        repo_id = (present p.repo_id).0 c.1.1.1.1.0;
        branch_name = (present p.branch_name).0 c.1.1.1.1.1.0;
        org_id = (present p.org_id).0 c.1.1.1.1.1.1.0;
        tas_file_name = (present p.tas_file_name).0 c.1.1.1.1.1.1.1.0;
        build_target_commit = (present p.build_target_commit).0 c.1.1.1.1.1.1.1.1.0;
        task = (task_test cfg).0 c.1.1.1.1.1.1.1.1.1.0;
        event = (event_test p.event_type).0 c.1.1.1.1.1.1.1.1.1.1.0;
        commits = (commits_test p).0 c.1.1.1.1.1.1.1.1.1.1.1.0;
      },
  λ c.
      rw
        ((refuse_first-ok (payload_checks cfg p)).1 (
          (present p.repo_link).1 c.repo_link,
          (
            (present p.repo_slug).1 c.repo_slug,
            (
              (present p.git_provider).1 c.git_provider,
              (
                (present p.build_id).1 c.build_id,
                (
                  (present p.repo_id).1 c.repo_id,
                  (
                    (present p.branch_name).1 c.branch_name,
                    (
                      (present p.org_id).1 c.org_id,
                      (
                        (present p.tas_file_name).1 c.tas_file_name,
                        (
                          (present p.build_target_commit).1 c.build_target_commit,
                          (
                            (task_test cfg).1 c.task,
                            (
                              (event_test p.event_type).1 c.event,
                              ((commits_test p).1 c.commits, tt),
                            ),
                          ),
                        ),
                      ),
                    ),
                  ),
                ),
              ),
            ),
          ),
        ))
        refl,
)

-- A payload is accepted, and then with the task id of the configuration, unless coverage is merged, and
-- with its locators where it has some, and otherwise as it was, exactly if the payload is complete.
pub validate_payload-ok :
    (cfg : NucleusConfig) (p : Payload)
    → (validate_payload cfg p ≡ ok (with_configuration cfg p)) ↔ IsComplete cfg p
validate_payload-ok cfg p =
    let same = ap ok (completed-with_configuration cfg p) in
    (λ h. (accepted_completed cfg p).0 (h ∙ sym same), λ c. (accepted_completed cfg p).1 c ∙ same)
