-- ===== src/Server/Proxy.antt =====
-- pkg/proxyserver: the requests of nucleus that synapse passes on, and how the servers of both end.
-- `Remote` is the parsed address of the cloud; base64 is a parameter.
use test_at_scale.Prelude.{String, ◌⧺◌, Option, none, some, [], ◌∷◌, ◌++◌, Dict, lookup}
use test_at_scale.Errs.{Err, Reply}
use test_at_scale.Format.{or_empty}

pub record Remote : Type 0 where
  pub scheme : String
  pub host : String

-- The headers are the values that were added, in their order.
pub record ProxyRequest : Type 0 where
  pub scheme : String
  pub host : String
  pub url_host : String
  pub path : String
  pub headers : Dict String

-- `global.TASCloudURL`
abbrev pub tas_cloud_url : Dict String
tas_cloud_url =
    ("stage", "https://stage-api-tas.lambdatestinternal.com")
    ∷ ("dev", "http://host.docker.internal")
    ∷ ("prod", "https://api.tas.lambdatest.com")
    ∷ ("pi", "https://api.tas-pi.lambdatest.com")
    ∷ []

unfoldable pub new_proxy_handler : (String → Reply Remote) → String → Reply Remote
unfolding lookup or_empty
new_proxy_handler parse env = parse (or_empty (lookup env tas_cloud_url))

-- The director of `HandlerProxy`.
unfoldable pub director : Remote → (String → String) → String → ProxyRequest → ProxyRequest
director remote encode secret_key r = record {
  scheme = remote.scheme;
  host = remote.host;
  url_host = remote.host;
  path = "/synapse" ⧺ r.path;
  headers = r.headers ++ ("Lambdatest-SecretKey", encode secret_key) ∷ [];
}

-- What the select of `ListenAndServe` finds: a context that is done, with what the shutdown came to, or
-- a server that could not listen. Nothing ever closes its third channel.
pub data Ending : Type 0 where
  context_done : Option Err → Ending
  listen_failed : Err → Ending

-- An error of the shutdown is only logged.
unfoldable pub listen_and_serve : Ending → Option Err
listen_and_serve (context_done shutdown) = none
listen_and_serve (listen_failed e) = some e
