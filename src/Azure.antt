-- ===== src/Azure.antt =====
-- pkg/azure/client.go: the store of blobs, and pkg/logwriter/setup.go, which writes logs to it.
-- Azure's service answers through `Service`, by the address of a blob or by its path in the container;
-- JSON and the parsing of addresses are parameters.
pub mod Hits
pub mod Tests
use test_at_scale.Prelude.{
  ℕ, String, ◌⧺◌, Bool, true, false, ◌||◌, Option, none, some, List, [], ◌∷◌, Dict, insert, str_eq,
  ◌==◌, if◌then◌else◌,
}
use test_at_scale.Errs.{Err, error, foreign, sentinel, not_found, message, Reply, got, refused}
use test_at_scale.Requests.{Web, make_api_request, default_query, default_headers}

-- `core.SASURLPurpose`
abbrev pub purpose_cache : String
purpose_cache = "cache"

abbrev pub purpose_pre_run_logs : String
purpose_pre_run_logs = "pre_run_logs"

abbrev pub purpose_post_run_logs : String
purpose_post_run_logs = "post_run_logs"

abbrev pub purpose_execution_logs : String
purpose_execution_logs = "execution_logs"

-- An error of the service: the code of the storage error that it wraps, if it does, and its text.
pub record ServiceErr : Type 0 where
  pub storage_code : Option String
  pub text : String

pub data Outcome : Type 0 where
  succeeded : Outcome
  failed : ServiceErr → Outcome

-- `client` is the making of a client for an address, and `url_of` the address that a path has in the
-- container. `upload` has the type of the content beside the address.
pub record Service : Type 0 where
  pub parse : String → Reply String
  pub client : String → Option Err
  pub url_of : String → String
  pub download : String → Outcome
  pub upload : String → String → Option Err
  pub properties : String → Reply ℕ

-- The encoding of a purpose and the decoding of the answer.
pub record Codec : Type 0 where
  pub encode : String → Reply String
  pub decode : String → Reply String

-- `handleError`
unfoldable pub handle_error : ServiceErr → Err
handle_error e = elim e.storage_code [
  | none ↦ foreign e.text
  | some code ↦ if str_eq code "BlobNotFound" then sentinel not_found else foreign e.text
]

abbrev pub found : Outcome → Option Err
found succeeded = none
found (failed e) = some (handle_error e)

abbrev pub client_made : String → Option Err → Reply String
client_made url (some e) = refused e
client_made url none = got url

abbrev pub client_for : Service → Reply String → Reply String
client_for service (refused e) = refused e
client_for service (got url) = client_made url (service.client url)

abbrev pub found_at : Service → Reply String → Option Err
found_at service (refused e) = some e
found_at service (got url) = found (service.download url)

-- `FindUsingSASUrl`, without the body of the blob.
unfoldable pub find_using_sas_url : Service → String → Option Err
unfolding handle_error
find_using_sas_url service sas_url = found_at service (client_for service (service.parse sas_url))

abbrev pub created_at : Service → String → Reply String → Option Err
created_at service mime_type (refused e) = some e
created_at service mime_type (got url) = service.upload url mime_type

-- `CreateUsingSASURL`, without the address that it returns.
unfoldable pub create_using_sas_url : Service → String → String → Option Err
create_using_sas_url service sas_url mime_type =
    created_at service mime_type (client_for service (service.parse sas_url))

-- `Find` and `Create` in the container.
unfoldable pub find : Service → String → Option Err
unfolding handle_error
find service path = found (service.download (service.url_of path))

unfoldable pub create : Service → String → String → String × Option Err
create service path mime_type =
    (service.url_of path, service.upload (service.url_of path) mime_type)

-- The default query is written over what the caller asks for.
unfoldable pub with_defaults : Dict String → Dict String → Dict String
with_defaults [] query = query
with_defaults (entry ∷ defaults) query = with_defaults defaults (insert entry.0 entry.1 query)

abbrev pub endpoint : Web → String
endpoint web = web.neuron_host ⧺ "/internal/sas-token"

abbrev pub answered : Codec → Reply (ℕ × String) → Reply String
answered codec (refused e) = refused e
answered codec (got (status, body)) = codec.decode body

abbrev pub asked : Web → Codec → Dict String → Reply String → Reply String
asked web codec query (refused e) = refused e
asked web codec query (got payload) = answered codec (
    make_api_request web "POST" (endpoint web) payload (with_defaults (default_query web) query)
      (default_headers web))

-- `GetSASURL`
unfoldable pub get_sas_url : Web → Codec → String → Dict String → Reply String
unfolding with_defaults
get_sas_url web codec purpose query = asked web codec query (codec.encode purpose)

-- `Exists`
unfoldable pub exists : Service → String → Reply Bool
exists service path = elim (service.properties (service.url_of path)) [
  | refused e ↦ refused (error ("check if object exists, " ⧺ message e))
  | got status ↦ got (status == 200)
]

-- The configuration that `NewAzureBlobEnv` reads, and what it makes: a store with or without a container.
pub record BlobConfig : Type 0 where
  pub coverage_mode : Bool
  pub local_runner : Bool
  pub storage_account_name : String
  pub storage_access_key : String
  pub container_name : String

abbrev pub local_account : BlobConfig → BlobConfig
local_account cfg =
    if cfg.local_runner
    then record cfg {
      storage_account_name = "dummy-account";
      storage_access_key = "dummy-access-key";
    }
    else cfg

abbrev pub account_url : BlobConfig → String
account_url cfg =
    "https://" ⧺ cfg.storage_account_name ⧺ ".blob.core.windows.net/" ⧺ cfg.container_name

-- The credential, the address and the client of the service, which may each be refused.
pub record Connector : Type 0 where
  pub credential : String → String → Option Err
  pub parse : String → Reply String
  pub service_client : String → Option Err

abbrev pub container_client : Option Err → Reply (Option String)
container_client (some e) = refused e
container_client none = got (some "coverage")

abbrev pub connected : Connector → Reply String → Reply (Option String)
connected c (refused e) = refused e
connected c (got url) = container_client (c.service_client url)

abbrev pub authorized : Connector → BlobConfig → Option Err → Reply (Option String)
authorized c cfg (some e) = refused e
authorized c cfg none = connected c (c.parse (account_url cfg))

abbrev pub with_account : Connector → BlobConfig → Reply (Option String)
with_account c cfg =
    if str_eq cfg.storage_account_name "" || str_eq cfg.storage_access_key ""
    then refused
        (error "either the storage account or storage access key environment variable is not set")
    else authorized c cfg (c.credential cfg.storage_account_name cfg.storage_access_key)

unfoldable pub new_azure_blob_env : Connector → BlobConfig → Reply (Option String)
new_azure_blob_env c cfg =
    if cfg.coverage_mode then with_account c (local_account cfg) else got none

-- The `Write` of the log writers: what their goroutine sends, or nothing before the channel is closed.
abbrev pub logs_created : Service → Reply String → Option Err
logs_created service (refused e) = some e
logs_created service (got sas_url) = create_using_sas_url service sas_url "text/plain"

unfoldable pub write_azure : Web → Codec → Service → String → Option Err
write_azure web codec service purpose = logs_created service (get_sas_url web codec purpose [])

unfoldable pub write_buffer : String → String → Reply String → String × Option Err
write_buffer buffer sub_module (refused e) =
    (buffer ⧺ "\n<------ PRE RUN for " ⧺ sub_module ⧺ "  ------> \n", some e)
write_buffer buffer sub_module (got logs) =
    (buffer ⧺ "\n<------ PRE RUN for " ⧺ sub_module ⧺ "  ------> \n" ⧺ logs, none)
