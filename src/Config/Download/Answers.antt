-- ===== src/Config/Download/Answers.antt =====
-- What pkg/tasconfigdownloader/setup.go returns.
use test_at_scale.Prelude.{
  String, ◌≡◌, refl, ap, ◌∙◌, Bool, true, false, not, Option, none, some, arith, if◌then◌else◌,
  Bool-cases, inl, inr,
}
use test_at_scale.Errs.{Err, Result, ok, err, panicked, is_ok, >>=-eq-ok}
use test_at_scale.Models.{ℤ, pos}
use test_at_scale.Config.{Yaml, AnyConfig, load_and_validate, get_version_of}
use test_at_scale.Config.Download.{
  DownloaderOutput, Validation, other_valid_version, after_load, get_tas_config, version_mismatch,
}

after_load-ok :
    (validate : Validation) (version : ℤ) (removal : Option Err) (r : Result AnyConfig)
    (out : DownloaderOutput)
    → after_load validate version removal r ≡ ok out
    → (out.version ≡ version) × (r ≡ ok out.tas_config) × (removal ≡ none)
unfolding after_load
after_load-ok validate version removal panicked out h = cc
after_load-ok validate version none (ok config) out h = (cc h, cc h, refl)
after_load-ok validate version (some e) (ok config) out h = cc
after_load-ok validate version removal (err e) out h = absurd (ground arith)

-- A configuration that is returned was downloaded, carries the version that its file states, is what
-- the validation for exactly that version accepted, and its file was removed.
pub get_tas_config-ok :
    (yaml : Yaml) (remove : String → Option Err) (fetched : Result String)
    (event_type license_tier file_path : String) (out : DownloaderOutput)
    → get_tas_config yaml remove fetched event_type license_tier file_path ≡ ok out
    → (path : String) × (fetched ≡ ok path)
      × (get_version_of yaml path ≡ ok out.version)
      × (load_and_validate yaml out.version path event_type license_tier file_path
          ≡ ok out.tas_config)
      × (remove path ≡ none)
unfolding get_tas_config
get_tas_config-ok yaml remove fetched event_type license_tier file_path out h =
    let (path, found, h1) = >>=-eq-ok fetched _ h in
    let (version, read, h2) = >>=-eq-ok (get_version_of yaml path) _ h1 in
    let validate : Validation =
      λ v. load_and_validate yaml v path event_type license_tier file_path in
    let (same, loads, removed) =
      after_load-ok validate version (remove path) (validate version) out h2 in
    (path, found, cc (read, same), ap validate same ∙ loads, removed)

-- The other one of the two versions.
abbrev pub version_of : Bool → ℤ
version_of true = pos 1
version_of false = pos 2

-- A downloaded file of version 1 or 2 that its own version refuses gives the error of a version
-- mismatch if the other version accepts it, and else the error of its own version.
pub get_tas_config_mismatch :
    (yaml : Yaml) (remove : String → Option Err) (path event_type license_tier file_path : String)
    (first : Bool) (e : Err)
    → get_version_of yaml path ≡ ok (version_of first)
    → load_and_validate yaml (version_of first) path event_type license_tier file_path ≡ err e
    → get_tas_config yaml remove (ok path) event_type license_tier file_path
      ≡ err (
          if is_ok
            (load_and_validate yaml (version_of (not first)) path event_type license_tier file_path)
          then version_mismatch
          else e)
unfolding get_tas_config after_load other_valid_version
get_tas_config_mismatch yaml remove path event_type license_tier file_path true e read refuses =
    rw (read, refuses)
      (elim (Bool-cases
        (is_ok (load_and_validate yaml (pos 2) path event_type license_tier file_path))) [
          | inl accepts ↦ rw accepts refl
          | inr neither ↦ rw neither refl
        ])
get_tas_config_mismatch yaml remove path event_type license_tier file_path false e read refuses =
    rw (read, refuses)
      (elim (Bool-cases
        (is_ok (load_and_validate yaml (pos 1) path event_type license_tier file_path))) [
          | inl accepts ↦ rw accepts refl
          | inr neither ↦ rw neither refl
        ])
