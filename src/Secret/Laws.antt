-- ===== src/Secret/Laws.antt =====
-- What pkg/secret/secret.go accepts as a token, and what a substitution changes.
use test_at_scale.Prelude.{
  String, ◌≡◌, ◌≢◌, ◌⊎◌, inl, inr, refl, false, none, List, [], ◌∷◌, Dict, lookup, str_eq, eq_iff,
  arith, Bool-cases, All,
}
use mathlib.Core.Path.{subst}
use test_at_scale.Errs.{
  sentinel, missing_access_token, ok, Reply, got, refused, >>=-eq-ok, refuse_if, refuse_if-ok,
}
use test_at_scale.Models.{Oauth, bearer, basic}
use test_at_scale.Secret.{
  File, absent, present, get_oauth_secret, normalized, empty_oauth, substitute, substitute_secret,
  decoded,
}

normalized-type : (o : Oauth) → ((normalized o).type ≡ basic) ⊎ ((normalized o).type ≡ bearer)
normalized-type o = elim (Bool-cases (str_eq o.type basic)) [
  | inl same ↦ inl (rw same ((eq_iff o.type basic).0 same))
  | inr other ↦ inr (rw other refl)
]

normalized-access_token : (o : Oauth) → (normalized o).access_token ≡ o.access_token
normalized-access_token o = ground arith

-- Whatever the file holds and the decoder answers, a token that is returned has an access token that
-- is not empty, and its type is basic or bearer.
get_oauth_secret-usable :
    (decode : Oauth → String → Reply Oauth) (file : File) (o : Oauth)
    → get_oauth_secret decode file ≡ ok o
    → (o.access_token ≢ "") × ((o.type ≡ basic) ⊎ (o.type ≡ bearer))
unfolding get_oauth_secret
get_oauth_secret-usable decode (absent e) o h = cc
get_oauth_secret-usable decode (present (refused e)) o h = cc
get_oauth_secret-usable decode (present (got body)) o h =
    let (d, _, h1) = >>=-eq-ok (decoded (decode empty_oauth body)) _ h in
    let (unit, checked, h2) =
      >>=-eq-ok (refuse_if (str_eq d.access_token "") (sentinel missing_access_token))
        (λ u. ok (normalized d)) h1 in
    let same : normalized d ≡ o = cc h2 in
    let filled : str_eq d.access_token "" ≡ false =
      refuse_if-ok (str_eq d.access_token "") (sentinel missing_access_token) checked in
    subst (λ x. (x.access_token ≢ "") × ((x.type ≡ basic) ⊎ (x.type ≡ bearer))) same
      (
        λ e. absurd (ground (arith, eq_iff d.access_token "", normalized-access_token d)),
        normalized-type d,
      )

-- A match of which the name is no key of the secrets.
abbrev pub IsUnknown : Dict String → List String → Type 0
IsUnknown secrets [] = ⊥
IsUnknown secrets (whole ∷ []) = ⊥
IsUnknown secrets (whole ∷ name ∷ groups) = lookup name secrets ≡ none

substitute_unknown :
    (secrets : Dict String) (result : String) (matches : List (List String))
    → All (IsUnknown secrets) matches
    → substitute secrets result matches ≡ ok result
unfolding substitute
substitute_unknown secrets result [] h = refl
substitute_unknown secrets result ([] ∷ matches) h = absurd h.0
substitute_unknown secrets result ((whole ∷ []) ∷ matches) h = absurd h.0
substitute_unknown secrets result ((whole ∷ name ∷ groups) ∷ matches) h =
    rw h.0 (substitute_unknown secrets result matches h.1)

-- A command all of whose placeholders name secrets that do not exist is returned unchanged.
substitute_secret_unknown :
    (matches : String → List (List String)) (command : String) (secrets : Dict String)
    → All (IsUnknown secrets) (matches command)
    → substitute_secret matches command secrets ≡ ok command
unfolding substitute_secret
substitute_secret_unknown matches command secrets h =
    substitute_unknown secrets command (matches command) h
