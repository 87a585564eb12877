-- ===== src/Cache/Reuse.antt =====
-- What a sequence of downloads and uploads does, pkg/cachemanager/cachemanager.go.
use test_at_scale.Prelude.{
  String, ◌≡◌, refl, ap, ◌∙◌, Bool, true, false, Option, none, some, List, [], ◌∷◌, ◌++◌,
  if◌then◌else◌, All,
}
use test_at_scale.Errs.{Err, Reply, got, refused}
use test_at_scale.Cache.{
  Storage, Store, download, upload, get_cache_sas_url, found, download_at, upload_items,
  upload_validated, upload_compressed, created, sas_answer, items_or_default, validated,
}

-- A call of the store, with the key and the items that it is given.
pub data Call : Type 0 where
  downloads : String → Call
  uploads : String → List String → Call

abbrev pub perform : Storage → Store → Call → Store
perform io st (downloads key) = (download io key st).0
perform io st (uploads key items) = (upload io key items st).0

abbrev pub perform_all : Storage → Store → List Call → Store
perform_all io st [] = st
perform_all io st (c ∷ cs) = perform_all io (perform io st c) cs

-- What a store that knows the address `url` keeps: the address, and uploads to nothing but it.
pub record IsBound (url : String) (st : Store) : Type 0 where
  pub bound : st.sas_url ≡ some (got url)
  pub only : All (λ u. u ≡ url) st.uploaded

All-snoc :
    (P : String → Type 0) (xs : List String) (x : String) → All P xs → P x → All P (xs ++ x ∷ [])
All-snoc P [] x h p = (p, tt)
All-snoc P (y ∷ xs) x h p = (h.0, All-snoc P xs x h.1 p)

found-IsBound :
    (io : Storage) (url : String) (st : Store) (o : Option Err)
    → IsBound url st
    → IsBound url (found io st o).0
found-IsBound io url st none b = record { bound = b.bound; only = b.only }
found-IsBound io url st (some e) b = b

created-IsBound :
    (url : String) (st : Store) (o : Option Err) → IsBound url st → IsBound url (created st url o).0
created-IsBound url st (some e) b = b
created-IsBound url st none b = record {
  bound = b.bound;
  only = All-snoc (λ u. u ≡ url) st.uploaded url b.only refl;
}

get_cache_sas_url-bound :
    (io : Storage) (url key : String) (st : Store)
    → st.sas_url ≡ some (got url)
    → get_cache_sas_url io key st ≡ (st, got url)
unfolding get_cache_sas_url
get_cache_sas_url-bound io url key st b = ap (sas_answer io key st) b

download-IsBound :
    (io : Storage) (url key : String) (st : Store)
    → IsBound url st
    → IsBound url (download io key st).0
unfolding download
download-IsBound io url key st b =
    rw (get_cache_sas_url-bound io url key st b.bound) (found-IsBound io url st (io.find url) b)

upload_compressed-IsBound :
    (io : Storage) (url key : String) (st : Store) (o : Option Err)
    → IsBound url st
    → IsBound url (upload_compressed io key st o).0
upload_compressed-IsBound io url key st (some e) b = b
upload_compressed-IsBound io url key st none b =
    rw (get_cache_sas_url-bound io url key st b.bound) (created-IsBound url st (io.create url) b)

upload_items-IsBound :
    (io : Storage) (url key : String) (st : Store) (r : Reply (List String))
    → IsBound url st
    → IsBound url (upload_items io key st r).0
upload_items-IsBound io url key st (refused e) b = b
upload_items-IsBound io url key st (got items) b = go (validated io items)
  where
    go : (v : Reply (List String)) → IsBound url (upload_validated io key st v).0
    go (refused e) = b
    go (got []) = b
    go (got (item ∷ kept)) = upload_compressed-IsBound io url key st _ b

upload-IsBound :
    (io : Storage) (url key : String) (items : List String) (st : Store)
    → IsBound url st
    → IsBound url (upload io key items st).0
unfolding upload
upload-IsBound io url key items st b = by_skip st.skip_upload
  where
    by_skip :
        (skip : Bool)
        → IsBound url
            (if skip then (st, none) else upload_items io key st (items_or_default io items)).0
    by_skip true = b
    by_skip false = upload_items-IsBound io url key st (items_or_default io items) b

-- Once a process has the address of its cache, no sequence of downloads and uploads, with whatever
-- keys, asks for another or writes to another.
pub perform_all-IsBound :
    (io : Storage) (url : String) (st : Store) (calls : List Call)
    → IsBound url st
    → IsBound url (perform_all io st calls)
perform_all-IsBound io url st [] b = b
perform_all-IsBound io url st (downloads key ∷ calls) b =
    perform_all-IsBound io url (download io key st).0 calls (download-IsBound io url key st b)
perform_all-IsBound io url st (uploads key items ∷ calls) b =
    perform_all-IsBound io url (upload io key items st).0 calls
      (upload-IsBound io url key items st b)

-- What a later call leaves of a store that has had a hit.
abbrev SkipsAs : Store → Store → Type 0
SkipsAs st st' = (st'.skip_upload ≡ true) × (st'.uploaded ≡ st.uploaded)

found-skips :
    (io : Storage) (st : Store) (o : Option Err)
    → st.skip_upload ≡ true
    → SkipsAs st (found io st o).0
found-skips io st none s = (refl, refl)
found-skips io st (some e) s = (s, refl)

download-skips :
    (io : Storage) (key : String) (st : Store)
    → st.skip_upload ≡ true
    → SkipsAs st (download io key st).0
unfolding download get_cache_sas_url
download-skips io key st s = known st.sas_url
  where
    answered :
        (st' : Store) (r : Reply String) → SkipsAs st st' → SkipsAs st (download_at io (st', r)).0
    answered st' (refused e) k = k
    answered st' (got url) k =
        let (skips, same) = found-skips io st' (io.find url) k.0 in (skips, same ∙ k.1)

    known : (o : Option (Reply String)) → SkipsAs st (download_at io (sas_answer io key st o)).0
    known (some r) = answered st r (s, refl)
    known none =
        answered (record st { sas_url = some (io.get_sas_url key) }) (io.get_sas_url key) (s, refl)

upload_skips :
    (io : Storage) (key : String) (items : List String) (st : Store)
    → st.skip_upload ≡ true
    → (upload io key items st).0 ≡ st
unfolding upload
upload_skips io key items st s = by_skip st.skip_upload s
  where
    by_skip :
        (skip : Bool)
        → skip ≡ true
        → (if skip then (st, none) else upload_items io key st (items_or_default io items)).0 ≡ st
    by_skip true e = refl
    by_skip false e = cc

skipping :
    (io : Storage) (st : Store) (calls : List Call)
    → st.skip_upload ≡ true
    → SkipsAs st (perform_all io st calls)
skipping io st [] s = (s, refl)
skipping io st (downloads key ∷ calls) s =
    let (skips, same) = download-skips io key st s in
    let (later, rest) = skipping io (download io key st).0 calls skips in (later, rest ∙ same)
skipping io st (uploads key items ∷ calls) s =
    let quiet : (upload io key items st).0 ≡ st = upload_skips io key items st s in
    let (later, rest) =
      skipping io (upload io key items st).0 calls (ap (λ x. x.skip_upload) quiet ∙ s) in
    (later, rest ∙ ap (λ x. x.uploaded) quiet)

after_hit :
    (io : Storage) (url : String) (calls : List Call) (p : Store × Reply String)
    → p.1 ≡ got url
    → io.find url ≡ none
    → (perform_all io (download_at io p).0 calls).uploaded ≡ p.0.uploaded
after_hit io url calls (st, refused e) addressed hit = cc
after_hit io url calls (st, got u) addressed hit =
    let same : u ≡ url = cc addressed in
    rw (same, hit) (skipping io (record st { skip_upload = true }) calls refl).1

get_cache_sas_url-uploaded :
    (io : Storage) (key : String) (st : Store) (o : Option (Reply String))
    → (sas_answer io key st o).0.uploaded ≡ st.uploaded
get_cache_sas_url-uploaded io key st (some r) = refl
get_cache_sas_url-uploaded io key st none = refl

-- A download that finds a cache, even if it then fails to save or to unpack it, makes every later
-- sequence of downloads and uploads of the process upload nothing.
pub hit_never_uploads :
    (io : Storage) (key url : String) (st : Store) (calls : List Call)
    → (get_cache_sas_url io key st).1 ≡ got url
    → io.find url ≡ none
    → (perform_all io (download io key st).0 calls).uploaded ≡ st.uploaded
unfolding download get_cache_sas_url
hit_never_uploads io key url st calls addressed hit =
    after_hit io url calls (get_cache_sas_url io key st) addressed hit
    ∙ get_cache_sas_url-uploaded io key st st.sas_url
