-- ===== src/Azure/Tests.antt =====
-- A cache that is not there, at an address that is given at the second attempt.
use test_at_scale.Prelude.{
  String, ◌≡◌, ◌↔◌, refl, Option, true, none, some, [], ◌∷◌, insert, ◌==◌, if◌then◌else◌, ◌⧺◌,
}
use test_at_scale.Errs.{got}
use test_at_scale.Requests.{Web, make_api_request, retry}
use test_at_scale.Requests.Retry.{Settles, accepted}
use test_at_scale.Cache.{Store, new_store, download}
use test_at_scale.Cache.Tests.{storage}
use test_at_scale.Azure.{
  Service, Codec, ServiceErr, failed, get_sas_url, purpose_cache, with_defaults, new_azure_blob_env,
  write_azure, create_using_sas_url,
}
use test_at_scale.Azure.Hits.{
  storage_on, unless_missing, sas_request, download-unless_missing, get_sas_url-Settles,
}

abbrev web : Web
web = record {
  environment = λ name. name;
  neuron_host = "http://neuron";
  prepare = λ endpoint query. got endpoint;
  send = λ request i.
      if i == 0
      then got (record { status = 502; body = got "" })
      else got (record { status = 200; body = got "https://blob/c?sas" });
  tries = 3;
}

abbrev codec : Codec
codec = record { encode = λ purpose. got purpose; decode = λ body. got body }

abbrev missing : ServiceErr
missing = record { storage_code = some "BlobNotFound"; text = "404" }

abbrev service : Service
service = record {
  parse = λ url. got url;
  client = λ url. none;
  url_of = λ path. "https://blob/" ⧺ path;
  download = λ url. failed missing;
  upload = λ url mime_type. none;
  properties = λ url. got 404;
}

is_given : get_sas_url web codec purpose_cache (("key", "k") ∷ []) ≡ got "https://blob/c?sas"
unfolding get_sas_url make_api_request retry
is_given = refl

default_wins : with_defaults (("repoID", "r") ∷ []) (("repoID", "mine") ∷ []) ≡ ("repoID", "r") ∷ []
unfolding with_defaults insert
default_wins = refl

local_runner_needs_no_account :
    new_azure_blob_env
      (record {
        credential = λ name key. none;
        parse = λ url. got url;
        service_client = λ url. none;
      })
      (record {
        coverage_mode = true;
        local_runner = true;
        storage_account_name = "";
        storage_access_key = "";
        container_name = "";
      })
    ≡ got (some "coverage")
unfolding new_azure_blob_env
local_runner_needs_no_account = refl

logs_are_written : write_azure web codec service "pre_run_logs" ≡ none
unfolding write_azure get_sas_url make_api_request retry create_using_sas_url
logs_are_written = refl

download-unless_missing_example :
    ◌≡◌ {A = Store × Option _}
      (download (storage_on web codec service storage) "k" new_store)
      (record new_store { sas_url = some (got "https://blob/c?sas") }, unless_missing missing)
download-unless_missing_example =
    download-unless_missing web codec service storage "k" "https://blob/c?sas" "https://blob/c?sas"
      new_store missing refl is_given refl refl refl

get_sas_url-Settles_example :
    (get_sas_url web codec purpose_cache [] ≡ got "https://blob/c?sas") ↔ (
      (body : String) × Settles
        (web.send (sas_request web "http://neuron/internal/sas-token" "cache"))
        3
        0
        (accepted body)
      × (codec.decode body ≡ got "https://blob/c?sas"))
get_sas_url-Settles_example =
    get_sas_url-Settles web codec purpose_cache "cache" "http://neuron/internal/sas-token"
      "https://blob/c?sas" [] refl refl
