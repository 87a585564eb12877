-- ===== src/Secrets/Tests.antt =====
-- A private registry without credentials, and a token that is handed to a container.
use test_at_scale.Prelude.{String, false, [], ◌∷◌, Dict, str_eq, Bool, true, ◌&&◌, if◌then◌else◌}
use test_at_scale.Errs.{got, refused, foreign, Reply}
use test_at_scale.Models.{Oauth}
use test_at_scale.Secrets.{SynapseConfig}

abbrev pub config : SynapseConfig
config = record {
  name = "s";
  secret_key = "k";
  git = record { token = "t"; token_type = "Bearer" };
  container_registry = record {
    pull_policy = "always";
    mode = "private";
    username = "u";
    password = "";
  };
  repo_secrets = [];
}

-- A codec for one map.
abbrev token_map : Dict String
token_map =
    ("access_token", "t")
    ∷ ("expiry", "0001-01-01T00:00:00Z")
    ∷ ("refresh_token", "")
    ∷ ("token_type", "Bearer")
    ∷ []

abbrev is_same : Dict String → Dict String → Bool
is_same [] [] = true
is_same (x ∷ xs) (y ∷ ys) = str_eq x.0 y.0 && (str_eq x.1 y.1 && is_same xs ys)
is_same [] (y ∷ ys) = false
is_same (x ∷ xs) [] = false

abbrev encode : Dict String → Reply String
encode m = if is_same m token_map then got "{}" else refused (foreign "other")

abbrev decode : Oauth → String → Reply Oauth
decode o body = got (record { access_token = "t"; expiry = 0; refresh_token = ""; type = "Bearer" })
