-- ===== src/Cache.antt =====
-- pkg/cachemanager/cachemanager.go: the cache of a repository and the workspace that the pods share.
-- The store of blobs, the compressor and the file system answer through `Storage`. The package
-- variables and the fields that change are `Store`; `uploaded` lists the addresses that were written to.
pub mod Reuse
pub mod Tests
use test_at_scale.Prelude.{
  String, ◌⧺◌, Bool, true, false, ◌||◌, Option, none, some, List, [], ◌∷◌, ◌++◌, str_eq, ◌==◌,
  length, if◌then◌else◌,
}
use test_at_scale.Errs.{
  Err, sentinel, not_found, coded, error, status_failed, canceled, foreign, Reply, got, refused,
  Sentinel,
}

pub record Storage : Type 0 where
  pub get_sas_url : String → Reply String
  pub find : String → Option Err
  pub save : Option Err
  pub decompress : String → String → Option Err
  pub compress : String → String → List String → Option Err
  pub open_compressed : Option Err
  pub create : String → Option Err
  pub copy_file : String → String → Option Err
  pub exists : String → Reply Bool
  pub read_repo : Reply (List String)
  pub join : List String → String
  pub home_dir : String
  pub tmp_dir : String

-- `once` with the address and the error that it stored, and `skipUpload`.
pub record Store : Type 0 where
  pub sas_url : Option (Reply String)
  pub skip_upload : Bool
  pub uploaded : List String

abbrev pub new_store : Store
new_store = record { sas_url = none; skip_upload = false; uploaded = [] }

abbrev pub sas_answer : Storage → String → Store → Option (Reply String) → Store × Reply String
sas_answer io key st (some answer) = (st, answer)
sas_answer io key st none = (record st { sas_url = some (io.get_sas_url key) }, io.get_sas_url key)

-- `getCacheSASURL`: only the first key is ever asked for.
unfoldable pub get_cache_sas_url : Storage → String → Store → Store × Reply String
get_cache_sas_url io key st = sas_answer io key st st.sas_url

-- `errors.Is(err, errs.ErrNotFound)`
abbrev pub is_not_found : Err → Bool
is_not_found (sentinel Sentinel.not_found) = true
is_not_found e = false

abbrev then_try : Option Err → Option Err → Option Err
then_try none second = second
then_try (some e) second = some e

abbrev pub found : Storage → Store → Option Err → Store × Option Err
found io st (some e) = (st, if is_not_found e then none else some e)
found io st none = (
  record st { skip_upload = true },
  then_try io.save (io.decompress (io.join (io.tmp_dir ∷ "cache.tzst" ∷ [])) "/home/nucleus/repo"),
)

abbrev pub download_at : Storage → Store × Reply String → Store × Option Err
download_at io (st, refused e) = (st, some e)
download_at io (st, got url) = found io st (io.find url)

unfoldable pub download : Storage → String → Store → Store × Option Err
download io key st = download_at io (get_cache_sas_url io key st)

-- The directory of the first lock file that the repository lists.
unfoldable pub lock_dir : Storage → List String → String
lock_dir io [] = "node_modules"
lock_dir io (d ∷ dirs) =
    let rest = lock_dir io dirs in
    if str_eq d "yarn.lock"
    then io.join (io.home_dir ∷ ".cache" ∷ "yarn" ∷ [])
    else if str_eq d "package-lock.json" || str_eq d "npm-shrinkwrap.json"
    then io.join (io.home_dir ∷ ".npm" ∷ [])
    else if str_eq d "pnpm-lock.yaml"
    then io.join (io.home_dir ∷ ".local" ∷ "share" ∷ "pnpm" ∷ "store" ∷ [])
    else rest

unfoldable pub get_default_dirs : Storage → Reply (List String)
unfolding lock_dir
get_default_dirs io = elim io.read_repo [
  | refused e ↦ refused e
  | got dirs ↦ got ("/home/nucleus/repo/__tas" ∷ lock_dir io dirs ∷ [])
]

abbrev keep_if : String → Bool → Reply (List String) → Reply (List String)
keep_if item exists (refused e) = refused e
keep_if item exists (got items) = got (if exists then item ∷ items else items)

unfoldable pub validated : Storage → List String → Reply (List String)
validated io [] = got []
validated io (item ∷ items) =
    let rest = validated io items in
    elim (io.exists item) [ refused e ↦ refused e | got exists ↦ keep_if item exists rest ]

abbrev pub created : Store → String → Option Err → Store × Option Err
created st url (some e) = (st, some e)
created st url none = (record st { uploaded = st.uploaded ++ url ∷ [] }, none)

abbrev pub upload_at : Storage → Store × Reply String → Store × Option Err
upload_at io (st, refused e) = (st, some e)
upload_at io (st, got url) = created st url (io.create url)

abbrev pub upload_compressed : Storage → String → Store → Option Err → Store × Option Err
upload_compressed io key st (some e) = (st, some e)
upload_compressed io key st none = upload_at io (get_cache_sas_url io key st)

abbrev pub upload_validated : Storage → String → Store → Reply (List String) → Store × Option Err
upload_validated io key st (refused e) = (st, some e)
upload_validated io key st (got []) = (st, none)
upload_validated io key st (got (item ∷ items)) =
    upload_compressed io key st
      (then_try (io.compress "cache.tzst" "/home/nucleus/repo" (item ∷ items)) io.open_compressed)

abbrev pub upload_items : Storage → String → Store → Reply (List String) → Store × Option Err
upload_items io key st (refused e) = (st, none)
upload_items io key st (got items) = upload_validated io key st (validated io items)

abbrev pub items_or_default : Storage → List String → Reply (List String)
items_or_default io [] = get_default_dirs io
items_or_default io (item ∷ items) = got (item ∷ items)

-- A failure to list the repository ends the upload without an error.
unfoldable pub upload : Storage → String → List String → Store → Store × Option Err
upload io key items st =
    if st.skip_upload then (st, none) else upload_items io key st (items_or_default io items)

abbrev pub workspace_file : String → String
workspace_file sub_module =
    if str_eq sub_module "" then "workspace.tzst" else "workspace-" ⧺ sub_module ⧺ ".tzst"

unfoldable pub cache_workspace : Storage → String → Option Err
cache_workspace io sub_module =
    let file = workspace_file sub_module in
    then_try (io.compress file io.tmp_dir ("/home/nucleus" ∷ []))
      (io.copy_file (io.join (io.tmp_dir ∷ file ∷ [])) (io.join ("/workspace-cache" ∷ file ∷ [])))

unfoldable pub extract_workspace : Storage → String → Option Err
extract_workspace io sub_module =
    let file = workspace_file sub_module in
    then_try
      (io.copy_file (io.join ("/workspace-cache" ∷ file ∷ [])) (io.join (io.tmp_dir ∷ file ∷ [])))
      (io.decompress (io.join (io.tmp_dir ∷ file ∷ [])) "/home/nucleus")
