-- ===== src/Config/Accepted.antt =====
-- Which configurations `validateYMLV1` and `validateYMLV2` accept, and where a version leads.
use test_at_scale.Prelude.{
  ◌≤◌, String, ◌≡◌, ◌≢◌, ◌↔◌, refl, sym, ◌∙◌, false, Option, none, some, All, str_eq, eq_iff, arith,
  Bool-cases, inl, inr,
}
use test_at_scale.Errs.{ok, ◌>>◌, >>=-eq-ok}
use test_at_scale.Models.{TasConfigV2, MergeV2, default_config_v2, event_push, event_pull_request}
use test_at_scale.Config.{
  Yaml, or_no_threshold, check_merge, check_event_v2, validate_struct_v2, validate_yml_v2,
}
use test_at_scale.Config.Tier.{tier_rank, is_valid_license_tier, is_valid_license_tier-ok}
use test_at_scale.Config.SubModules.{check_sub_modules-ok, IsComplete, IsDistinct}

-- A merge section that is there, with complete submodules under distinct names.
abbrev pub IsMergeValid : Option MergeV2 → Type 0
IsMergeValid none = ⊥
IsMergeValid (some merge) = All IsComplete merge.sub_modules × IsDistinct merge.sub_modules

-- The section that the event needs is valid; other events need none.
pub record IsEventReady (event_type : String) (config : TasConfigV2) : Type 0 where
  pub pull : event_type ≡ event_pull_request → IsMergeValid config.pre_merge
  pub push : event_type ≡ event_push → IsMergeValid config.post_merge

check_merge-ok :
    (field file : String) (o : Option MergeV2) → (check_merge field file o ≡ ok tt) ↔ IsMergeValid o
unfolding check_merge
check_merge-ok field file none = (λ h. cc, λ b. absurd b)
check_merge-ok field file (some merge) = check_sub_modules-ok field file merge.sub_modules

push_is_no_pull : ◌≢◌ {A = String} event_push event_pull_request
push_is_no_pull = ground (arith, eq_iff event_push event_pull_request)

not_named : {s t : String} → str_eq s t ≡ false → s ≡ t → ⊥
not_named {s} {t} other p = cc (other, (eq_iff s t).1 p)

check_event_v2-ok :
    (event_type file : String) (config : TasConfigV2)
    → (check_event_v2 event_type file config ≡ ok tt) ↔ IsEventReady event_type config
unfolding check_event_v2
check_event_v2-ok event_type file config =
    elim (Bool-cases (str_eq event_type event_pull_request)) [
      | inl pulled ↦
          let e = (eq_iff event_type event_pull_request).0 pulled in
          let merge = check_merge-ok "preMerge" file config.pre_merge in
          rw pulled (
            λ h. record { pull = λ _. merge.0 h; push = λ p. absurd (push_is_no_pull (sym p ∙ e)) },
            λ r. merge.1 (r.pull e),
          )
      | inr other ↦ elim (Bool-cases (str_eq event_type event_push)) [
        | inl pushed ↦
            let e = (eq_iff event_type event_push).0 pushed in
            let merge = check_merge-ok "postMerge" file config.post_merge in
            rw (other, pushed)
              (
                λ h. record { pull = λ p. absurd (not_named other p); push = λ _. merge.0 h },
                λ r. merge.1 (r.push e),
              )
        | inr neither ↦
            rw (other, neither)
              (
                λ h. record {
                  pull = λ p. absurd (not_named other p);
                  push = λ p. absurd (not_named neither p);
                },
                λ r. refl,
              )
      ]
    ]

-- The configuration that validation returns: the coverage threshold is never missing.
abbrev pub with_threshold : TasConfigV2 → TasConfigV2
with_threshold config = record config {
  coverage_threshold = or_no_threshold config.coverage_threshold;
}

-- A version 2 file that decodes and passes the validator of struct tags is accepted exactly when the
-- merge section of its event is there, with submodules that have a name, a path and a pattern and
-- that are named apart, and its tier ranks no higher than the license's; the accepted configuration
-- is the decoded one with its coverage threshold filled in.
pub validate_yml_v2-ok :
    (yaml : Yaml) (text event_type license_tier file : String) (config : TasConfigV2)
    → yaml.decode_v2 default_config_v2 text ≡ ok config
    → yaml.invalid_v2 config ≡ none
    → (validate_yml_v2 yaml text event_type license_tier file ≡ ok (with_threshold config))
      ↔ (IsEventReady event_type config × (tier_rank config.tier ≤ tier_rank license_tier))
unfolding validate_yml_v2 validate_struct_v2
validate_yml_v2-ok yaml text event_type license_tier file config decodes valid =
    let event = check_event_v2-ok event_type file (with_threshold config) in
    let tier = is_valid_license_tier-ok config.tier license_tier in
    rw (decodes, valid)
      (
        λ h.
            let (_, ready, h') =
              >>=-eq-ok (check_event_v2 event_type file (with_threshold config))
                (λ _. is_valid_license_tier config.tier license_tier >> ok (with_threshold config))
                h in
            let (_, ranked, _) =
              >>=-eq-ok (is_valid_license_tier config.tier license_tier)
                (λ _. ok (with_threshold config)) h' in
            let r = event.0 ready in (record { pull = r.pull; push = r.push }, tier.0 ranked),
        λ p. rw (event.1 (record { pull = p.0.pull; push = p.0.push }), tier.1 p.1),
      )
