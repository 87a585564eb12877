-- ===== src/Driver/V2/Find.antt =====
-- The search of pkg/driver/driver_v2.go for a submodule, after the validation of the configuration.
use test_at_scale.Prelude.{
  String, ◌≡◌, ◌≢◌, refl, sym, ◌∙◌, true, false, List, [], ◌∷◌, All, str_eq, eq_iff, Bool,
  if◌then◌else◌,
}
use test_at_scale.Errs.{ok}
use test_at_scale.Models.{SubModule}
use test_at_scale.Config.SubModules.{check_sub_modules, check_sub_modules-ok, IsDistinct, both}
use test_at_scale.Driver.V2.Execution.{find_in}

abbrev Finds : List SubModule → SubModule → Type 0
Finds ms m = find_in m.name ms ≡ ok m

find_in-head : (m : SubModule) (ms : List SubModule) → Finds (m ∷ ms) m
unfolding find_in
find_in-head m ms = rw ((eq_iff m.name m.name).1 refl)

if_other {ℓ} : {A : Type ℓ} (b : Bool) (x y : A) → b ≢ true → (if b then x else y) ≡ y
if_other true x y h = absurd (h refl)
if_other false x y h = refl

find_in-tail :
    (m : SubModule) (ms : List SubModule) (n : SubModule)
    → n.name ≢ m.name
    → Finds ms n
    → Finds (m ∷ ms) n
unfolding find_in
find_in-tail m ms n new found =
    if_other (str_eq m.name n.name) (ok m) (find_in n.name ms)
      (λ same. new (sym ((eq_iff m.name n.name).0 same)))
    ∙ found

IsDistinct-Finds : (ms : List SubModule) → IsDistinct ms → All (Finds ms) ms
IsDistinct-Finds [] d = tt
IsDistinct-Finds (m ∷ ms) d =
    (find_in-head m ms, both ms (find_in-tail m ms) d.0 (IsDistinct-Finds ms d.1))

-- In a merge section that passed the validation, the search by a submodule's name finds that submodule,
-- for each of its submodules.
pub check_sub_modules-find_in :
    (field file : String) (ms : List SubModule)
    → check_sub_modules field file [] ms ≡ ok tt
    → All (λ m. find_in m.name ms ≡ ok m) ms
check_sub_modules-find_in field file ms valid =
    IsDistinct-Finds ms ((check_sub_modules-ok field file ms).0 valid).1
