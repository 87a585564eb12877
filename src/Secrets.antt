-- ===== src/Secrets.antt =====
-- pkg/secrets/secrets.go and the parts of config/synapsemodel.go that it reads: the secrets that synapse
-- hands to its containers. JSON and base64 are parameters.
pub mod Handed
pub mod Tests
use test_at_scale.Prelude.{
  String, ◌⧺◌, Bool, not, ◌||◌, Option, none, some, List, [], ◌∷◌, Dict, lookup, str_eq,
  if◌then◌else◌,
}
use test_at_scale.Errs.{Err, CodedErr, coded, error, message, cr_auth_nf, Reply, got, refused}
use test_at_scale.Models.{Oauth, RunnerOptions, ContainerImageConfig, nucleus_pod}

pub record GitConfig : Type 0 where
  pub token : String
  pub token_type : String

pub record ContainerRegistryConfig : Type 0 where
  pub pull_policy : String
  pub mode : String
  pub username : String
  pub password : String

pub record SynapseConfig : Type 0 where
  pub name : String
  pub secret_key : String
  pub git : GitConfig
  pub container_registry : ContainerRegistryConfig
  pub repo_secrets : Dict (Dict String)

abbrev pub pull_never : String
pull_never = "never"

abbrev pub public_mode : String
public_mode = "public"

abbrev pub json_mar : String → CodedErr
json_mar e = record { code = "ERR::JSON::MAR"; message = "Error marshaling JSON:  \n" ⧺ e }

abbrev pub marshalled : Reply String → Reply String
marshalled (got body) = got body
marshalled (refused e) = refused (coded (json_mar (message e)))

abbrev pub git_secrets : GitConfig → Dict String
git_secrets git =
    ("access_token", git.token)
    ∷ ("expiry", "0001-01-01T00:00:00Z")
    ∷ ("refresh_token", "")
    ∷ ("token_type", git.token_type)
    ∷ []

unfoldable pub get_git_secret_bytes : (Dict String → Reply String) → SynapseConfig → Reply String
get_git_secret_bytes marshal cfg = marshalled (marshal (git_secrets cfg.git))

abbrev of_repo : (Dict String → Reply String) → Option (Dict String) → Reply String
of_repo marshal none = refused (error "no secrets found in configuration file")
of_repo marshal (some val) = marshalled (marshal val)

unfoldable pub get_repo_secret_bytes :
    (Dict String → Reply String) → SynapseConfig → String → Reply String
get_repo_secret_bytes marshal cfg repo = of_repo marshal (lookup repo cfg.repo_secrets)

abbrev pub image_config : SynapseConfig → RunnerOptions → ContainerImageConfig
image_config cfg r = record {
  auth_registry = "";
  image = r.docker_image;
  mode = cfg.container_registry.mode;
  pull_policy = cfg.container_registry.pull_policy;
}

-- A failing `json.Marshal` of the two names would be passed over; it does not fail on texts.
unfoldable pub get_docker_secrets :
    (String → String → String) → SynapseConfig → RunnerOptions → Reply ContainerImageConfig
get_docker_secrets encoded_auth cfg r =
    let registry = cfg.container_registry in
    if not (str_eq r.pod_type nucleus_pod)
    then got (image_config cfg r)
    else if str_eq registry.mode public_mode || str_eq registry.pull_policy pull_never
    then got (image_config cfg r)
    else if str_eq registry.username "" || str_eq registry.password ""
    then refused (coded cr_auth_nf)
    else got (record (image_config cfg r) {
      auth_registry = encoded_auth registry.username registry.password;
    })

-- The token with the zero time and without a refresh token.
abbrev pub get_oauth_token : SynapseConfig → Oauth
get_oauth_token cfg = record {
  access_token = cfg.git.token;
  expiry = 0;
  refresh_token = "";
  type = cfg.git.token_type;
}

abbrev pub get_synapse_name : SynapseConfig → String
get_synapse_name cfg = cfg.name

abbrev pub get_lambdatest_secrets : SynapseConfig → String
get_lambdatest_secrets cfg = cfg.secret_key
