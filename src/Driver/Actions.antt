-- ===== src/Driver/Actions.antt =====
-- The state that a driver of pkg/driver works on, and its calls of the services.
-- A call is kept in `calls` once it is made. The two calls of an errgroup run side by side: `diff_first`
-- tells which of two errors comes first. A panic inside a goroutine would end the process and is not
-- among the answers. Writing the logs is left out.
use test_at_scale.Prelude.{
  ℕ, String, ◌⧺◌, Bool, true, false, Option, none, some, List, [], ◌∷◌, ◌++◌, Dict, if◌then◌else◌,
}
use test_at_scale.Errs.{
  Err, error, sentinel, status_failed, generic, message, Sentinel, Result, ok, err, panicked, Reply,
  got, refused,
}
use test_at_scale.Models.{
  ℤ, Payload, TaskPayload, Oauth, Run, SubModuleList, DiscoveyArgs, DiscoveryResult,
  TestExecutionArgs, TestReportResponsePayload,
}
use test_at_scale.Config.{Yaml, AnyConfig, load_and_validate}
use test_at_scale.Blocklist.{Remote, Service, get_block_tests}
use test_at_scale.Cache.{Storage, Store, download, upload, cache_workspace}
use test_at_scale.Execution.{ExecutionResults}

pub data Call : Type 0 where
  listed : SubModuleList → Call
  node_installed : String → Call
  ran : String → Run → String → Call
  runners_installed : String → Call
  workspace_cached : Call
  discovered : DiscoveyArgs → Call
  sent : DiscoveryResult → Call
  executed : TestExecutionArgs → Call
  reported : ExecutionResults → Call

pub record World : Type 0 where
  pub task : TaskPayload
  pub blocks : Service
  pub cache : Store
  pub calls : List Call

pub record Outside : Type 0 where
  pub yaml : Yaml
  pub tas_file_path : String
  pub remote : Remote
  pub storage : Storage
  pub checksum : Result String
  pub is_repo_root : String → Bool
  pub join_repo : String → String
  pub sub_module_name : String
  pub install_node : List String → Option Err
  pub user_commands : String → Run → Dict String → String → Option Err
  pub install_runners : String → Option Err
  pub send_list : SubModuleList → Option Err
  pub changed_files : Payload → Oauth → Reply (Dict ℕ)
  pub diff_first : Bool
  pub discover : DiscoveyArgs → Reply DiscoveryResult
  pub send_result : DiscoveryResult → Option Err
  pub run_tests : TestExecutionArgs → Reply ExecutionResults
  pub send_results : ExecutionResults → Reply TestReportResponsePayload

abbrev pub Action {ℓ} : Type ℓ → Type ℓ
Action A = World → World × Result A

abbrev pub go_on {ℓ κ} :
    {A : Type ℓ} {B : Type κ} → World × Result A → (A → Action B) → World × Result B
go_on (w, panicked) f = (w, panicked)
go_on (w, err e) f = (w, err e)
go_on (w, ok a) f = f a w

infixl 5 ◌>>=◌ ◌>>◌
abbrev pub ◌>>=◌ {ℓ κ} : {A : Type ℓ} {B : Type κ} → Action A → (A → Action B) → Action B
◌>>=◌ m f w = go_on (m w) f

abbrev pub ◌>>◌ {κ} : {B : Type κ} → Action (Unit {0}) → Action B → Action B
m >> k = m >>= λ unit. k

abbrev pub lift {ℓ} : {A : Type ℓ} → Result A → Action A
lift r w = (w, r)

-- An error with its replacement, as in `if err != nil { return f(err) }`.
abbrev pub result_of {ℓ} : {A : Type ℓ} → (Err → Err) → Reply A → Result A
result_of f (got a) = ok a
result_of f (refused e) = err (f e)

abbrev pub checked : (Err → Err) → Option Err → Result (Unit {0})
checked f none = ok tt
checked f (some e) = err (f e)

abbrev pub same : Err → Err
same e = e

abbrev pub as_generic : Err → Err
as_generic e = generic

abbrev pub failing_with : String → Err → Err
failing_with remark e = status_failed remark

abbrev pub note : Call → Action (Unit {0})
note c w = (record w { calls = w.calls ++ c ∷ [] }, ok tt)

abbrev pub call_then : Call → Result (Unit {0}) → Action (Unit {0})
call_then c r = note c >> lift r

abbrev pub set_status : String → Action (Unit {0})
set_status status w = (record w { task = record w.task { status = status } }, ok tt)

abbrev pub load_failed : Result AnyConfig → Result AnyConfig
load_failed (ok config) = ok config
load_failed (err e) = err (status_failed (message e))
load_failed panicked = panicked

-- `LoadAndValidate`, which is given the path of the file twice.
abbrev pub load : Outside → ℤ → Payload → Action AnyConfig
load o version p = lift (
    load_failed (
      load_and_validate o.yaml version o.tas_file_path p.event_type p.license_tier o.tas_file_path))

abbrev pub get_blocks : Outside → List String → String → Action (Unit {0})
get_blocks o yaml branch w =
    let (s, e) = get_block_tests o.remote yaml branch w.blocks in
    (record w { blocks = s }, checked as_generic e)

-- What becomes of the diff: whether it exists, and its files.
abbrev pub diff_answer : Reply (Dict ℕ) → Result (Bool × Dict ℕ)
diff_answer (got diff) = ok (true, diff)
diff_answer (refused (sentinel Sentinel.git_diff_not_found)) = ok (false, [])
diff_answer (refused e) = err (error "Error occurred in fetching diff from GitHub")

-- `g.Wait` gives the first error that came.
abbrev pub wait_both : Bool → Result (Unit {0}) → Result (Bool × Dict ℕ) → Result (Bool × Dict ℕ)
wait_both first (ok unit) diff = diff
wait_both true panicked diff = panicked
wait_both false panicked diff = panicked
wait_both true (err e) (err d) = err d
wait_both true (err e) panicked = panicked
wait_both true (err e) (ok d) = err e
wait_both false (err e) diff = err e

abbrev pub download_and_diff : Outside → Bool → String → Payload → Oauth → Action (Bool × Dict ℕ)
download_and_diff o downloads key p oauth w =
    let diff = diff_answer (o.changed_files p oauth) in
    if downloads
    then (let (st, e) = download o.storage key w.cache in
        (record w { cache = st }, wait_both o.diff_first (checked as_generic e) diff))
    else (w, diff)

abbrev pub upload_cache : Outside → String → List String → Action (Option Err)
upload_cache o key paths w =
    let (st, e) = upload o.storage key paths w.cache in (record w { cache = st }, ok e)

abbrev pub cache_work : Outside → Action (Unit {0})
cache_work o = call_then workspace_cached (checked as_generic (cache_workspace o.storage ""))

abbrev pub discover_tests : Outside → DiscoveyArgs → Action DiscoveryResult
discover_tests o args =
    note (discovered args)
    >> lift (result_of (failing_with "Failed in discovering tests") (o.discover args))

abbrev pub send_discovery : Outside → DiscoveryResult → Action (Unit {0})
send_discovery o result = call_then (sent result) (checked same (o.send_result result))

abbrev pub run_commands : Outside → String → String → Run → Dict String → String → Action (Unit {0})
run_commands o kind remark run secrets cwd =
    call_then (ran kind run cwd)
      (checked (failing_with remark) (o.user_commands kind run secrets cwd))

abbrev pub install : Outside → String → Action (Unit {0})
install o cwd = call_then (runners_installed cwd) (checked as_generic (o.install_runners cwd))

-- The commands of `NodeInstaller`. That it puts the node on the path of the process is left out.
abbrev pub node_commands : String → List String
node_commands version = "source /home/nucleus/.nvm/nvm.sh" ∷ ("nvm install " ⧺ version) ∷ []

abbrev pub install_node_version : Outside → String → Action (Unit {0})
install_node_version o version =
    call_then (node_installed version) (checked as_generic (o.install_node (node_commands version)))

abbrev pub send_sub_modules : Outside → Payload → ℕ → Action (Unit {0})
send_sub_modules o p total =
    let list : SubModuleList = record { build_id = p.build_id; total_sub_module = total } in
    call_then (listed list) (checked same (o.send_list list))

abbrev pub skip : Action (Unit {0})
skip w = (w, ok tt)
