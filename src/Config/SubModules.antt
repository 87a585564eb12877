-- ===== src/Config/SubModules.antt =====
-- The loop of `validateYMLV2` over the submodules of one merge section: each is validated, and its
-- name must be new. `seen` is the key set of `subModuleMap`.
use test_at_scale.Prelude.{
  String, ◌⧺◌, ◌≡◌, ◌≢◌, false, List, [], ◌∷◌, any, str_eq, eq_iff, arith, All, refl, ◌↔◌, All-mono,
}
use test_at_scale.Errs.{Err, error, Result, ok, ◌>>◌, refuse_if, >>=-eq-ok, refuse_if-ok}
use test_at_scale.Models.{SubModule}
use test_at_scale.Utils.{validate_sub_module}

abbrev pub duplicate : String → String → Err
duplicate field file =
    error ("duplicate subModule name found in `" ⧺ field ⧺ "` in tas configuration file " ⧺ file)

unfoldable pub check_sub_modules :
    String → String → List String → List SubModule → Result (Unit {0})
check_sub_modules field file seen [] = ok tt
check_sub_modules field file seen (m ∷ ms) = do
  validate_sub_module m
  refuse_if (any (str_eq m.name) seen) (duplicate field file)
  check_sub_modules field file (m.name ∷ seen) ms

-- What a submodule must have.
pub record IsComplete (m : SubModule) : Type 0 where
  pub named : m.name ≢ ""
  pub placed : m.path ≢ ""
  pub tested : m.patterns ≢ []

-- No two submodules have one name.
abbrev pub IsDistinct : List SubModule → Type 0
IsDistinct [] = Unit
IsDistinct (m ∷ ms) = All (λ n. n.name ≢ m.name) ms × IsDistinct ms

validate_sub_module-IsComplete : (m : SubModule) → validate_sub_module m ≡ ok tt → IsComplete m
unfolding validate_sub_module
validate_sub_module-IsComplete m h = record {
  named = ground (arith, eq_iff m.name "");
  placed = ground (arith, eq_iff m.path "");
  tested = ground arith;
}

IsComplete-validate_sub_module : (m : SubModule) → IsComplete m → validate_sub_module m ≡ ok tt
unfolding validate_sub_module
IsComplete-validate_sub_module m h = ground (arith, eq_iff m.name "", eq_iff m.path "")

-- The name of a submodule is not among the names that were seen.
abbrev IsNew : List String → SubModule → Type 0
IsNew seen m = any (str_eq m.name) seen ≡ false

IsNew-cons : (k : String) (seen : List String) (n : SubModule) → IsNew (k ∷ seen) n → n.name ≢ k
IsNew-cons k seen n h = ground (arith, eq_iff n.name k)

IsNew-tail : (k : String) (seen : List String) (n : SubModule) → IsNew (k ∷ seen) n → IsNew seen n
IsNew-tail k seen n h = ground arith

cons-IsNew :
    (k : String) (seen : List String) (n : SubModule)
    → n.name ≢ k
    → IsNew seen n
    → IsNew (k ∷ seen) n
cons-IsNew k seen n h s = ground (arith, eq_iff n.name k)

check_sub_modules_sound :
    (field file : String) (seen : List String) (ms : List SubModule)
    → check_sub_modules field file seen ms ≡ ok tt
    → All IsComplete ms × IsDistinct ms × All (IsNew seen) ms
unfolding check_sub_modules
check_sub_modules_sound field file seen [] h = (tt, tt, tt)
check_sub_modules_sound field file seen (m ∷ ms) h =
    let rest = check_sub_modules field file (m.name ∷ seen) ms in
    let (_, valid, h') =
      >>=-eq-ok (validate_sub_module m)
        (λ _. refuse_if (any (str_eq m.name) seen) (duplicate field file) >> rest) h in
    let (_, fresh, h'') =
      >>=-eq-ok (refuse_if (any (str_eq m.name) seen) (duplicate field file)) (λ _. rest) h' in
    let (complete, distinct, unseen) = check_sub_modules_sound field file (m.name ∷ seen) ms h'' in
    (
      (validate_sub_module-IsComplete m valid, complete),
      (All-mono ms (IsNew-cons m.name seen) unseen, distinct),
      (
        refuse_if-ok (any (str_eq m.name) seen) (duplicate field file) fresh,
        All-mono ms (IsNew-tail m.name seen) unseen,
      ),
    )

pub both :
    {P Q R : SubModule → Type 0} (ms : List SubModule)
    → ((m : SubModule) → P m → Q m → R m)
    → All P ms
    → All Q ms
    → All R ms
both [] f p q = tt
both (m ∷ ms) f p q = (f m p.0 q.0, both ms f p.1 q.1)

check_sub_modules_complete :
    (field file : String) (seen : List String) (ms : List SubModule)
    → All IsComplete ms
    → IsDistinct ms
    → All (IsNew seen) ms
    → check_sub_modules field file seen ms ≡ ok tt
unfolding check_sub_modules
check_sub_modules_complete field file seen [] c d u = refl
check_sub_modules_complete field file seen (m ∷ ms) c d u = rw (
  IsComplete-validate_sub_module m c.0,
  u.0,
  check_sub_modules_complete field file (m.name ∷ seen) ms c.1 d.1
      (both ms (cons-IsNew m.name seen) d.0 u.1),
)

All-IsNew : (ms : List SubModule) → All (IsNew []) ms
All-IsNew [] = tt
All-IsNew (m ∷ ms) = (refl, All-IsNew ms)

-- A merge section passes exactly when every submodule has a name, a path and a pattern, and no two
-- have one name.
pub check_sub_modules-ok :
    (field file : String) (ms : List SubModule)
    → (check_sub_modules field file [] ms ≡ ok tt) ↔ (All IsComplete ms × IsDistinct ms)
check_sub_modules-ok field file ms = (
  λ h.
      let (complete, distinct, _) = check_sub_modules_sound field file [] ms h in
      (complete, distinct),
  λ p. check_sub_modules_complete field file [] ms p.0 p.1 (All-IsNew ms),
)
