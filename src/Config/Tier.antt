-- ===== src/Config/Tier.antt =====
-- `tierEnumMapping` and `isValidLicenseTier` of pkg/tasconfigmanager/setup.go.
use test_at_scale.Prelude.{ℕ, ◌≤◌, String, ◌⧺◌, ◌≡◌, ◌↔◌, arith, ltb, str_eq, if◌then◌else◌}
use test_at_scale.Errs.{Result, ok, error, refuse_if}
use test_at_scale.Models.{xsmall, small, medium, large, xlarge}

-- A Go map gives 0 for a tier that it does not hold: `internal`, the empty text and all others.
unfoldable pub tier_rank : String → ℕ
tier_rank tier =
    if str_eq tier xsmall
    then 1
    else if str_eq tier small
    then 2
    else if str_eq tier medium
    then 3
    else if str_eq tier large
    then 4
    else if str_eq tier xlarge
    then 5
    else 0

unfoldable pub is_valid_license_tier : String → String → Result (Unit {0})
is_valid_license_tier yaml_tier license_tier =
    refuse_if (ltb (tier_rank license_tier) (tier_rank yaml_tier)) (
      error (
        "Sorry, the requested tier `" ⧺ yaml_tier
        ⧺ "` is not supported under the current plan. Please upgrade your plan."))

pub is_valid_license_tier-ok :
    (yaml_tier license_tier : String)
    → (is_valid_license_tier yaml_tier license_tier ≡ ok tt)
      ↔ (tier_rank yaml_tier ≤ tier_rank license_tier)
unfolding is_valid_license_tier
is_valid_license_tier-ok yaml_tier license_tier = ground arith
