-- ===== src/Config/Download.antt =====
-- pkg/tasconfigdownloader/setup.go: a configuration file that is downloaded, read and validated for
-- its own version, and tried against the other versions when that fails. `fetched` is the answer of
-- the download, and `remove` is `os.Remove`.
pub mod Answers
use test_at_scale.Prelude.{String, ◌⧺◌, Bool, not, Option, List, [], ◌∷◌, if◌then◌else◌}
use test_at_scale.Errs.{Err, error, Result, ok, err, panicked, is_ok, check, ◌>>=◌, ◌>>◌}
use test_at_scale.Models.{ℤ, pos, negsuc, eqb_ℤ}
use test_at_scale.Config.{Yaml, AnyConfig, load_and_validate, get_version_of}

pub record DownloaderOutput : Type 0 where
  pub version : ℤ
  pub tas_config : AnyConfig

-- `global.ValidYMLVersions`
abbrev pub valid_yml_versions : List ℤ
valid_yml_versions = pos 1 ∷ pos 2 ∷ []

abbrev pub version_mismatch : Err
version_mismatch = error (
    "the yml structure is invalid, please check the TAS yml documentation : "
    ⧺ "https://www.lambdatest.com/support/docs/tas-configuring-tas-yml")

-- What the validation of a downloaded file is for a version.
abbrev pub Validation : Type 0
Validation = ℤ → Result AnyConfig

-- `checkYmlValidityForOtherVersion`: the first other version for which the file is valid, or -1.
unfoldable pub other_valid_version : Validation → ℤ → List ℤ → ℤ
other_valid_version validate version [] = negsuc 0
other_valid_version validate version (supported ∷ versions) =
    let rest = other_valid_version validate version versions in
    if eqb_ℤ version supported then rest else if is_ok (validate supported) then supported else rest

unfoldable pub after_load : Validation → ℤ → Option Err → Result AnyConfig → Result DownloaderOutput
unfolding other_valid_version
after_load validate version removal panicked = panicked
after_load validate version removal (ok config) =
    check removal >> ok (record { version = version; tas_config = config })
after_load validate version removal (err e) =
    if not (eqb_ℤ (other_valid_version validate version valid_yml_versions) (negsuc 0))
    then err version_mismatch
    else err e

unfoldable pub get_tas_config :
    Yaml
    → (String → Option Err)
    → Result String
    → String
    → String
    → String
    → Result DownloaderOutput
unfolding after_load
get_tas_config yaml remove fetched event_type license_tier file_path = do
  path ← fetched
  version ← get_version_of yaml path
  let validate : Validation = λ v. load_and_validate yaml v path event_type license_tier file_path
  after_load validate version (remove path) (validate version)
