-- ===== src/Secret.antt =====
-- pkg/secret/secret.go: the OAuth token and the secrets of a repository, which are read from files,
-- and their substitution in commands. Files, JSON and the regular expression are parameters: `matches`
-- gives what `FindAllStringSubmatch` finds in a command, each match with its groups.
pub mod Laws
pub mod Tests
use test_at_scale.Prelude.{
  ℕ, ◌+◌, String, Bool, true, false, not, ◌&&◌, Option, none, some, List, [], ◌∷◌, Dict, lookup,
  ltb, str_eq, ◌==◌, if◌then◌else◌,
}
use test_at_scale.Errs.{
  Err, sentinel, secret_regex_match, unmarshal_json, missing_access_token, Result, ok, err,
  panicked, Reply, got, refused, ◌>>=◌, ◌>>◌, refuse_if,
}
use test_at_scale.Models.{Oauth, bearer, basic}
use test_at_scale.Url.{replace_all}

-- A file: it is absent, which `os.Lstat` reports, or it is read.
pub data File : Type 0 where
  absent : Err → File
  present : Reply String → File

abbrev decoded {ℓ} : {A : Type ℓ} → Reply A → Result A
decoded (got a) = ok a
decoded (refused e) = err (sentinel unmarshal_json)

-- `decode` is `json.Unmarshal` into an empty map.
unfoldable pub get_repo_secret : (String → Reply (Dict String)) → File → Result (Dict String)
get_repo_secret decode (absent e) = ok []
get_repo_secret decode (present (refused e)) = err e
get_repo_secret decode (present (got body)) = decoded (decode body)

abbrev pub empty_oauth : Oauth
empty_oauth = record { access_token = ""; expiry = 0; refresh_token = ""; type = bearer }

abbrev pub normalized : Oauth → Oauth
normalized o = if not (str_eq o.type basic) then record o { type = bearer } else o

-- `decode` is `json.Unmarshal` into the value that it is given.
unfoldable pub get_oauth_secret : (Oauth → String → Reply Oauth) → File → Result Oauth
get_oauth_secret decode (absent e) = err e
get_oauth_secret decode (present (refused e)) = err e
get_oauth_secret decode (present (got body)) = do
  o ← decoded (decode empty_oauth body)
  refuse_if (str_eq o.access_token "") (sentinel missing_access_token)
  ok (normalized o)

-- One placeholder: a missing name leaves the text as it is.
abbrev pub replaced : String → String → Option String → String
replaced result whole none = result
replaced result whole (some value) = replace_all result whole value

unfoldable pub substitute : Dict String → String → List (List String) → Result String
substitute secrets result [] = ok result
substitute secrets result ((whole ∷ name ∷ groups) ∷ matches) =
    substitute secrets (replaced result whole (lookup name secrets)) matches
substitute secrets result (short ∷ matches) = err (sentinel secret_regex_match)

unfoldable pub substitute_secret :
    (String → List (List String)) → String → Dict String → Result String
unfolding substitute
substitute_secret matches command secrets = substitute secrets command (matches command)

-- A quarter of an hour, in nanoseconds.
abbrev pub expiry_delta : ℕ
expiry_delta = 900000000000

-- `Expired`; the expiry less the delta lies before now.
unfoldable pub expired : ℕ → Oauth → Bool
expired now token =
    if str_eq token.refresh_token ""
    then false
    else if (token.expiry == 0) && not (str_eq token.access_token "")
    then false
    else ltb token.expiry (now + expiry_delta)
