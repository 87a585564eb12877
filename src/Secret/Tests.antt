-- ===== src/Secret/Tests.antt =====
-- A token, and a command with a placeholder that names no secret.
use test_at_scale.Prelude.{String, ◌≡◌, refl, List, [], ◌∷◌, lookup}
use test_at_scale.Errs.{ok}
use test_at_scale.Models.{Oauth}
use test_at_scale.Url.{replace_all}
use test_at_scale.Secret.{substitute_secret}

abbrev token : Oauth
token = record { access_token = "t"; expiry = 1; refresh_token = "r"; type = "other" }

abbrev one_placeholder : String → List (List String)
one_placeholder command = ("${{ secrets.a }}" ∷ "a" ∷ []) ∷ []

replaces : substitute_secret one_placeholder "echo ${{ secrets.a }}" (("a", "1") ∷ []) ≡ ok "echo 1"
unfolding substitute_secret lookup replace_all
replaces = refl
