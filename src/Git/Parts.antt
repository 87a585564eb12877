-- ===== src/Git/Parts.antt =====
-- The pieces of an address and of a token that pkg/gitmanager/setup.go takes, as `strings.Split` gives
-- them.
use Prim.Native.String.{[], ◌∷◌}
use test_at_scale.Prelude.{String, Bool, false, ◌||◌, Option, none, some, str_eq, if◌then◌else◌}

-- Whether a text has a slash, and what stands behind the last one.
unfoldable pub has_slash : String → Bool
has_slash [] = false
has_slash (c ∷ s) = str_eq (c ∷ []) "/" || has_slash s

unfoldable pub last_item : String → String
unfolding has_slash
last_item [] = []
last_item (c ∷ s) =
    let rest = last_item s in if has_slash s then rest else if str_eq (c ∷ []) "/" then s else c ∷ s

-- What stands before the first colon, and behind it if there is one.
unfoldable pub before_colon : String → String
before_colon [] = []
before_colon (c ∷ s) = let rest = before_colon s in if str_eq (c ∷ []) ":" then [] else c ∷ rest

unfoldable pub behind_colon : String → Option String
behind_colon [] = none
behind_colon (c ∷ s) = let rest = behind_colon s in if str_eq (c ∷ []) ":" then some s else rest
