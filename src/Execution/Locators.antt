-- ===== src/Execution/Locators.antt =====
-- The download of the locators, `getLocatorsFile` of pkg/testexecutionservice/testexecution.go, and the
-- command line that names their file. The files answer through `Disk`.
use test_at_scale.Prelude.{
  String, ◌≡◌, ◌≢◌, refl, sym, ◌∙◌, true, not, Option, none, some, List, [], ◌∷◌, ◌++◌, str_eq,
  arith, eq_iff,
}
use test_at_scale.Errs.{Err, Result, ok, check, ◌>>◌, >>=-eq-ok}
use test_at_scale.Models.{TestExecutionArgs}
use test_at_scale.Azure.{Service, find_using_sas_url}
use test_at_scale.Utils.{get_args, framework_runner}
use test_at_scale.Execution.{Runner, build_cmd_args}

pub record Disk : Type 0 where
  pub join_temp : String → String
  pub create : String → Option Err
  pub copy_to : String → Option Err

unfoldable pub get_locators_file : Service → Disk → String → Result String
get_locators_file service disk locator_address =
    let locator_file_path = disk.join_temp "locators" in
    check (find_using_sas_url service locator_address)
    >> (check (disk.create locator_file_path)
        >> (check (disk.copy_to locator_file_path) >> ok locator_file_path))

check-ok :
    {A : Type 0} (e : Option Err) (next : Result A) (a : A)
    → (check e >> next) ≡ ok a
    → (e ≡ none) × (next ≡ ok a)
check-ok none next a h = (refl, h)
check-ok (some e) next a h = cc

get_locators_file-ok :
    (service : Service) (disk : Disk) (address file : String)
    → get_locators_file service disk address ≡ ok file
    → (find_using_sas_url service address ≡ none)
      × (disk.create (disk.join_temp "locators") ≡ none)
      × (disk.copy_to (disk.join_temp "locators") ≡ none)
      × (file ≡ disk.join_temp "locators")
unfolding get_locators_file
get_locators_file-ok service disk address file h =
    let path = disk.join_temp "locators" in
    let (found, made) = check-ok (find_using_sas_url service address) _ file h in
    let (created, copied) = check-ok (disk.create path) _ file made in
    let (written, same) = check-ok (disk.copy_to path) (ok path) file copied in
    (found, created, written, cc)

-- With an address of locators, a command line is built only if the blob was found, the file made and
-- the blob copied to it, and then its last two arguments name that file.
pub build_cmd_args-get_locators_file :
    (service : Service) (disk : Disk) (r : Runner) (a : TestExecutionArgs) (args : List String)
    → r.locators_file a.payload.locator_address
      ≡ get_locators_file service disk a.payload.locator_address
    → a.payload.locator_address ≢ ""
    → build_cmd_args r a ≡ ok args
    → (find_using_sas_url service a.payload.locator_address ≡ none)
      × (disk.create (disk.join_temp "locators") ≡ none)
      × (disk.copy_to (disk.join_temp "locators") ≡ none)
      × (args
          ≡ (framework_runner a.framework
              ∷ get_args "execute" a.framework a.framework_version a.test_config_file
                  a.test_pattern)
            ++ "--locator-file" ∷ disk.join_temp "locators" ∷ [])
unfolding build_cmd_args
build_cmd_args-get_locators_file service disk r a args same present h =
    let asked : not (str_eq a.payload.locator_address "") ≡ true =
      ground (arith, eq_iff a.payload.locator_address "") in
    let (file, answered, built) =
      >>=-eq-ok (r.locators_file a.payload.locator_address) _ (rw asked at h) in
    let (found, created, written, named) =
      get_locators_file-ok service disk a.payload.locator_address file (sym same ∙ answered) in
    (found, created, written, cc)
