-- ===== src/Cache/Tests.antt =====
-- A store whose first download hits, and one that uploads.
use test_at_scale.Prelude.{◌≡◌, refl, true, false, none, some, [], ◌∷◌}
use test_at_scale.Errs.{got}
use test_at_scale.Cache.{Storage, Store, new_store, upload, get_cache_sas_url, validated}
use test_at_scale.Cache.Reuse.{downloads, uploads, perform_all, IsBound, perform_all-IsBound}

abbrev pub storage : Storage
storage = record {
  get_sas_url = λ key. got "https://blob/c";
  find = λ url. none;
  save = none;
  decompress = λ _ _. none;
  compress = λ _ _ _. none;
  open_compressed = none;
  create = λ _. none;
  copy_file = λ _ _. none;
  exists = λ _. got true;
  read_repo = got ("yarn.lock" ∷ []);
  join = λ _. "/p";
  home_dir = "/home/nucleus";
  tmp_dir = "/tmp";
}

abbrev known : Store
known = record { sas_url = some (got "https://blob/c"); skip_upload = false; uploaded = [] }

uploads_once :
    (upload storage "k" ("node_modules" ∷ []) new_store).0
    ≡ record known { uploaded = "https://blob/c" ∷ [] }
unfolding upload validated get_cache_sas_url
uploads_once = refl

perform_all-IsBound_example :
    IsBound "https://blob/c"
      (perform_all storage known (uploads "k" ("m" ∷ []) ∷ downloads "other" ∷ []))
perform_all-IsBound_example =
    perform_all-IsBound storage "https://blob/c" known
      (uploads "k" ("m" ∷ []) ∷ downloads "other" ∷ []) (record { bound = refl; only = tt })

addressed : (get_cache_sas_url storage "k" new_store).1 ≡ got "https://blob/c"
unfolding get_cache_sas_url
addressed = refl
