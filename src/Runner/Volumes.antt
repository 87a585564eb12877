-- ===== src/Runner/Volumes.antt =====
-- The cleaning of the build caches: `RemoveOldVolumes` of pkg/runner/docker/docker.go, which
-- pkg/cron/setup.go calls every five minutes, and the other loops and files of the runner.
-- The volumes are the docker daemon's: `VolumeApi` is what it answers in a state, and `IsDocker` what
-- its documentation says of the answers.
use test_at_scale.Prelude.{
  ℕ, ◌+◌, ◌≤◌, String, ◌⧺◌, ◌≡◌, ◌≢◌, refl, ap, ◌∙◌, Option, none, some, List, [], ◌∷◌, map,
  has_prefix, ltb, arith, if◌then◌else◌, Bool-cases, inl, inr, lookup,
}
use test_at_scale.Errs.{Err, Reply, got, refused}
use test_at_scale.Models.{RunnerOptions}
use test_at_scale.Runner.{Daemon, destroy}
use test_at_scale.Runner.Host.{text_or_empty}

-- `KillRunningDocker`: the errors that it logs, one for each container that runs.
unfoldable pub kill_running_docker : Daemon → List RunnerOptions → List (Option Err)
kill_running_docker d running = map (destroy d) running

-- The files of `writeLogs`; `copy` is the copying of the container's output to a file.
pub record LogFiles : Type 0 where
  pub container_logs : String → Option Err
  pub create_directory : String → Option Err
  pub create_file : String → Option Err
  pub copy : String → Option Err

abbrev pub log_dir : RunnerOptions → String
log_dir r = "/var/log/synapse" ⧺ "/" ⧺ text_or_empty (lookup "build-id" r.label)

abbrev pub log_path : RunnerOptions → String
log_path r = log_dir r ⧺ "/" ⧺ r.container_name ⧺ "-" ⧺ r.pod_type ⧺ ".log"

-- `writeLogs`: the tests after the directory and after the copying look at an earlier error.
unfoldable pub write_logs : LogFiles → RunnerOptions → Option Err
write_logs files r = elim (files.container_logs r.container_id) [
  | some e ↦ some e
  | none ↦
      let ignored_dir = files.create_directory (log_dir r) in
      elim (files.create_file (log_path r)) [
        | some e ↦ some e
        | none ↦ let ignored_copy = files.copy (log_path r) in none
      ]
]

pub record Volume : Type 0 where
  pub name : String
  pub created_at : ℕ

-- `inspect` is `VolumeInspectWithRaw` with the reading of its answer.
pub record VolumeApi (S : Type 0) : Type 1 where
  pub Has : S → Volume → Type 0
  pub volume_list : S → Reply (List String)
  pub inspect : S → String → Reply ℕ
  pub volume_remove : String → S → S × Option Err
  pub volume_create : String → ℕ → S → S × Option Err

pub record IsDocker {S : Type 0} (api : VolumeApi S) : Type 0 where
  pub inspects_own :
      (s : S) (v : Volume) (t : ℕ) → api.Has s v → api.inspect s v.name ≡ got t → t ≡ v.created_at
  pub removes_named :
      (s : S) (v : Volume) (name : String)
      → api.Has s v
      → v.name ≢ name
      → api.Has (api.volume_remove name s).0 v
  pub creates_beside :
      (s : S) (v : Volume) (name : String) (t : ℕ)
      → api.Has s v
      → api.Has (api.volume_create name t s).0 v

-- Four hours, in nanoseconds.
abbrev pub build_cache_expiry : ℕ
build_cache_expiry = 14400000000000

abbrev pub volume_prefix : String
volume_prefix = "tas-build"

module _ {S : Type 0} (api : VolumeApi S) where
  -- An error of the inspection or of the removal is only logged.
  abbrev pub remove_if_old : String → ℕ → Reply ℕ → S → S
  remove_if_old name now (refused e) s = s
  remove_if_old name now (got created) s =
      if ltb (created + build_cache_expiry) now then (api.volume_remove name s).0 else s

  abbrev pub visit : (String → ℕ) → String → S → S
  visit now name s =
      if has_prefix name volume_prefix
      then remove_if_old name (now name) (api.inspect s name) s
      else s

  -- The loop; `now` is the time that is read at each volume.
  unfoldable pub visit_all : (String → ℕ) → List String → S → S
  visit_all now [] s = s
  visit_all now (name ∷ names) s = visit_all now names (visit now name s)

  -- After a list that could not be fetched there is nothing to visit.
  abbrev pub names_of : Reply (List String) → List String
  names_of (refused e) = []
  names_of (got names) = names

  unfoldable pub remove_old_volumes : (String → ℕ) → S → S
  remove_old_volumes now s = visit_all now (names_of (api.volume_list s)) s

  -- A clock and the volumes. Builds add volumes, and the cron job runs at any time: the times that
  -- one run reads lie before the time at which it ends.
  pub data Step : ℕ × S → ℕ × S → Type 0 where
    passes : {t : ℕ} {s : S} (later : ℕ) → t ≤ later → Step (t, s) (later, s)
    creates : {t : ℕ} {s : S} (name : String) → Step (t, s) (t, (api.volume_create name t s).0)
    cleans :
        {t : ℕ} {s : S} (later : ℕ) (now : String → ℕ)
        → t ≤ later
        → ((name : String) → now name ≤ later)
        → Step (t, s) (later, remove_old_volumes now s)

  pub data Reach (from : ℕ × S) : ℕ × S → Type 0 where
    here : Reach from from
    next : {p q : ℕ × S} → Reach from p → Step p q → Reach from q

  module _ (docker : IsDocker api) where
    young_stays :
        (v : Volume) (later now : ℕ) (name : String) (s : S) (r : Reply ℕ)
        → api.inspect s name ≡ r
        → now ≤ later
        → later ≤ v.created_at + build_cache_expiry
        → api.Has s v
        → api.Has (remove_if_old name now r s) v
    young_stays v later now name s (refused e) inspected early young h = h
    young_stays v later now name s (got created) inspected early young h =
        elim (Bool-cases (ltb (created + build_cache_expiry) now)) [
          | inr fresh ↦ rw fresh h
          | inl old ↦ rw old (
              docker.removes_named s v name h λ same.
                let own : created ≡ v.created_at =
                  docker.inspects_own s v created h (ap (api.inspect s) same ∙ inspected) in
                absurd (ground (arith, old, own)))
        ]

    visit-keeps :
        (v : Volume) (later : ℕ) (now : String → ℕ) (name : String) (s : S)
        → now name ≤ later
        → later ≤ v.created_at + build_cache_expiry
        → api.Has s v
        → api.Has (visit now name s) v
    visit-keeps v later now name s early young h =
        elim (Bool-cases (has_prefix name volume_prefix)) [
          | inr foreign ↦ rw foreign h
          | inl cache ↦
              rw cache
                (young_stays v later (now name) name s (api.inspect s name) refl early young h)
        ]

    visit_all-keeps :
        (v : Volume) (later : ℕ) (now : String → ℕ) (names : List String) (s : S)
        → ((name : String) → now name ≤ later)
        → later ≤ v.created_at + build_cache_expiry
        → api.Has s v
        → api.Has (visit_all now names s) v
    unfolding visit_all
    visit_all-keeps v later now [] s early young h = h
    visit_all-keeps v later now (name ∷ names) s early young h =
        visit_all-keeps v later now names (visit now name s) early young
          (visit-keeps v later now name s (early name) young h)

    Step-keeps :
        {p q : ℕ × S} (v : Volume)
        → Step p q
        → q.0 ≤ v.created_at + build_cache_expiry
        → (p.0 ≤ q.0) × (api.Has p.1 v → api.Has q.1 v)
    unfolding remove_old_volumes
    Step-keeps v (passes later le) young = (le, λ h. h)
    Step-keeps v (creates {t} {s} name) young = (omega arith, docker.creates_beside s v name t)
    Step-keeps v (cleans {t} {s} later now le early) young =
        (le, visit_all-keeps v later now (names_of (api.volume_list s)) s early young)

    -- Whatever builds start and however often the build caches are cleaned, a volume is still there
    -- for four hours after its creation.
    pub Reach-keeps :
        {p q : ℕ × S} (v : Volume)
        → Reach p q
        → q.0 ≤ v.created_at + build_cache_expiry
        → api.Has p.1 v
        → api.Has q.1 v
    Reach-keeps v here young h = h
    Reach-keeps v (next r st) young h =
        let (le, keeps) = Step-keeps v st young in keeps (Reach-keeps v r (omega (arith, le)) h)
