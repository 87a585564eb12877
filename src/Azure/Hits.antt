-- ===== src/Azure/Hits.antt =====
-- The cache of pkg/cachemanager/cachemanager.go on the store of pkg/azure/client.go, and the addresses
-- that the store is given.
use test_at_scale.Prelude.{
  ℕ, String, ◌≡◌, ◌↔◌, refl, sym, ap, ◌∙◌, Bool, false, Option, none, some, [], ◌∷◌, Dict, str_eq,
  if◌then◌else◌, Bool-cases, inl, inr,
}
use test_at_scale.Errs.{Err, foreign, Reply, got, refused}
use test_at_scale.Cache.{
  Storage, Store, download, get_cache_sas_url, download_at, sas_answer, found,
}
use test_at_scale.Requests.{Web, Request, make_api_request, default_query, default_headers}
use test_at_scale.Requests.Retry.{Settles, accepted, make_api_request-Settles}
use test_at_scale.Azure.{
  ServiceErr, failed, Service, Codec, handle_error, find_using_sas_url, create_using_sas_url,
  with_defaults, endpoint, answered, asked, get_sas_url, purpose_cache,
}

-- The store of the cache manager, on a file system and a compressor.
abbrev pub storage_on : Web → Codec → Service → Storage → Storage
storage_on web codec service base = record base {
  get_sas_url = λ key. get_sas_url web codec purpose_cache (("key", key) ∷ []);
  find = λ url. find_using_sas_url service url;
  create = λ url. create_using_sas_url service url "application/zstd";
}

abbrev pub is_missing : Option String → Bool
is_missing none = false
is_missing (some code) = str_eq code "BlobNotFound"

-- What a cache manager makes of the failure of the service.
abbrev pub unless_missing : ServiceErr → Option Err
unless_missing e = if is_missing e.storage_code then none else some (foreign e.text)

found-handled :
    (io : Storage) (st : Store) (code : Option String) (text : String)
    → found io st (some (handle_error (record { storage_code = code; text = text })))
      ≡ (st, unless_missing (record { storage_code = code; text = text }))
unfolding handle_error
found-handled io st none text = refl
found-handled io st (some code) text = elim (Bool-cases (str_eq code "BlobNotFound")) [
  | inl missing ↦ rw missing refl
  | inr other ↦ rw other refl
]

find_failed :
    (service : Service) (url blob : String) (e : ServiceErr)
    → service.parse url ≡ got blob
    → service.client blob ≡ none
    → service.download blob ≡ failed e
    → find_using_sas_url service url ≡ some (handle_error e)
unfolding find_using_sas_url
find_failed service url blob e parsed made failing = rw (parsed, made, failing) refl

-- Where the first download of a cache is given an address and the service then fails, it reports no
-- error exactly if the service said that there is no such blob; it keeps the address, and whether a
-- later upload is skipped stays as it was.
pub download-unless_missing :
    (web : Web) (codec : Codec) (service : Service) (base : Storage) (key url blob : String)
    (st : Store) (e : ServiceErr)
    → st.sas_url ≡ none
    → get_sas_url web codec purpose_cache (("key", key) ∷ []) ≡ got url
    → service.parse url ≡ got blob
    → service.client blob ≡ none
    → service.download blob ≡ failed e
    → download (storage_on web codec service base) key st
      ≡ (record st { sas_url = some (got url) }, unless_missing e)
unfolding download get_cache_sas_url
download-unless_missing web codec service base key url blob st e first given parsed made failing =
    let io = storage_on web codec service base in
    ap (λ o. download_at io (sas_answer io key st o)) first
    ∙ ap (λ r. download_at io (record st { sas_url = some r }, r)) given
    ∙ ap (found io (record st { sas_url = some (got url) }))
        (find_failed service url blob e parsed made failing)
    ∙ found-handled io (record st { sas_url = some (got url) }) e.storage_code e.text

answered-got :
    (codec : Codec) (r : Reply (ℕ × String)) (url : String)
    → answered codec r ≡ got url
    → (status : ℕ) × (body : String) × (r ≡ got (status, body)) × (codec.decode body ≡ got url)
answered-got codec (refused e) url h = cc
answered-got codec (got (status, body)) url h = (status, body, refl, h)

-- The request that `GetSASURL` makes.
abbrev pub sas_request : Web → String → String → Request
sas_request web address payload = record {
  method = "POST";
  url = address;
  payload = payload;
  headers = default_headers web;
}

-- When the purpose can be encoded and the address of the request be prepared with the default query
-- written over the given one, an address of a blob is returned exactly if the first attempt that is
-- not to be tried again, within those that are allowed, was answered with 200 and a body that
-- decodes to it.
pub get_sas_url-Settles :
    (web : Web) (codec : Codec) (purpose payload address url : String) (query : Dict String)
    → codec.encode purpose ≡ got payload
    → web.prepare (endpoint web) (with_defaults (default_query web) query) ≡ got address
    → (get_sas_url web codec purpose query ≡ got url) ↔ (
        (body : String) × Settles
          (web.send (sas_request web address payload))
          web.tries
          0
          (accepted body)
        × (codec.decode body ≡ got url))
unfolding get_sas_url
get_sas_url-Settles web codec purpose payload address url query encoded prepared =
    let query' = with_defaults (default_query web) query in
    let tried : get_sas_url web codec purpose query
        ≡ answered codec
            (make_api_request web "POST" (endpoint web) payload query' (default_headers web)) =
      ap (asked web codec query) encoded in
    (
      λ h.
          let (status, body, made, decoded) = answered-got codec _ url (sym tried ∙ h) in
          let parts =
            (make_api_request-Settles web "POST" (endpoint web) payload address query'
                (default_headers web) status body prepared).0
              made in
          (body, parts.1, decoded),
      λ p.
          tried
          ∙ ap (answered codec) (
              (make_api_request-Settles web "POST" (endpoint web) payload address query'
                  (default_headers web) 200 p.0 prepared).1
                (refl, p.1))
          ∙ p.2,
    )
