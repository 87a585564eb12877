-- ===== src/Runner/Tests.antt =====
-- A daemon that runs one container, and the results at concrete inputs.
use test_at_scale.Prelude.{
  String, ◌≡◌, ◌↔◌, ◌⊎◌, refl, true, none, some, List, [], ◌∷◌, lookup, ℕ, ◌≢◌, sym, ap, ◌∙◌,
  Option, ◌++◌, map, str_eq, eq_iff, arith, has_prefix, if◌then◌else◌,
}
use test_at_scale.Errs.{Reply, got, refused, foreign}
use test_at_scale.Models.{RunnerOptions, nucleus_pod, medium}
use test_at_scale.Runner.{
  Daemon, waiting, exited, wait_error, create, create_volume, pull_image, network_id,
  copy_repo_secret, copy_secrets, after_create, create_in_network, create_from, run, launch_created,
  launch, complete, with_args,
}
use test_at_scale.Runner.Volumes.{
  Volume, VolumeApi, IsDocker, Reach-keeps, here, next, cleans, remove_old_volumes, visit_all,
}
use test_at_scale.Runner.Host.{volume_name}
use test_at_scale.Runner.{create as made, with_args}
use test_at_scale.Runner.Launch.{IsLaunch, launch-IsLaunch, launch-complete}

abbrev pub container : String → RunnerOptions
container id = record {
  container_id = id;
  docker_image = "nucleus";
  label = [];
  container_name = "c";
  container_args = [];
  host_volume_path = "";
  env = [];
  pod_type = nucleus_pod;
  tier = medium;
}

abbrev pub daemon : Daemon
daemon = record {
  docker_secrets =
      λ _. got (record { auth_registry = ""; image = ""; mode = ""; pull_policy = "" });
  volume_list = λ name. got (name ∷ []);
  volume_create = λ _. none;
  image_pull = λ _. none;
  network_list = got (("net", "n1") ∷ []);
  container_create = λ _ _ _ _. ("id1", none);
  git_secret = got "oauth";
  repo_secret = λ _. refused (foreign "none");
  copy_to_container = λ _ _ _. none;
  container_start = λ _. none;
  container_wait = λ _. exited 0;
  container_stop = λ _. none;
  container_remove = λ _. none;
  auto_remove = some true;
  network_name = "net";
  local = "true";
  synapse_host = "localhost";
}

abbrev others : List RunnerOptions
others = container "a" ∷ container "b" ∷ []

abbrev started : RunnerOptions
started = record (with_args daemon (container "")) { container_id = "id1" }

launch-IsLaunch_example :
    IsLaunch daemon
      (made daemon (with_args daemon (container "")))
      others
      (launch daemon others (container ""))
launch-IsLaunch_example = launch-IsLaunch daemon others (container "")

launches :
    launch daemon others (container "")
    ≡ (container "a" ∷ container "b" ∷ started ∷ [], waiting started)
unfolding launch launch_created create create_from create_in_network after_create copy_secrets
    copy_repo_secret create_volume pull_image network_id run lookup volume_name
launches = refl

launch-complete_example :
    ((complete daemon (container "a" ∷ container "b" ∷ started ∷ []) started).0 ≡ others)
    × (((complete daemon (container "a" ∷ container "b" ∷ started ∷ []) started).1.done ≡ true) ↔ (
        (daemon.container_wait "id1" ≡ wait_error none) ⊎ (daemon.container_wait "id1" ≡ exited 0)))
launch-complete_example =
    launch-complete daemon others (container "a" ∷ container "b" ∷ started ∷ []) (container "")
      started launches refl

-- Volumes in a list, of which the first with a name is meant.
find_volume : String → List Volume → Option Volume
find_volume name [] = none
find_volume name (v ∷ vs) = if str_eq v.name name then some v else find_volume name vs

without_volume : String → List Volume → List Volume
without_volume name [] = []
without_volume name (v ∷ vs) =
    if str_eq v.name name then without_volume name vs else v ∷ without_volume name vs

find_volume-without :
    (wanted name : String) (vs : List Volume)
    → wanted ≢ name
    → find_volume wanted (without_volume name vs) ≡ find_volume wanted vs
unfolding find_volume without_volume
find_volume-without wanted name [] other = refl
find_volume-without wanted name (v ∷ vs) other =
    ground
      (arith, eq_iff v.name name, eq_iff v.name wanted, find_volume-without wanted name vs other)

find_volume-append :
    (wanted : String) (vs ws : List Volume) (v : Volume)
    → find_volume wanted vs ≡ some v
    → find_volume wanted (vs ++ ws) ≡ some v
unfolding find_volume
find_volume-append wanted [] ws v h = cc
find_volume-append wanted (w ∷ vs) ws v h = ground (arith, find_volume-append wanted vs ws v)

created_of : Option Volume → Reply ℕ
created_of none = refused (foreign "no such volume")
created_of (some v) = got v.created_at

abbrev listed : VolumeApi (List Volume)
listed = record {
  Has = λ vs v. find_volume v.name vs ≡ some v;
  volume_list = λ vs. got (map (λ v. v.name) vs);
  inspect = λ vs name. created_of (find_volume name vs);
  volume_remove = λ name vs. (without_volume name vs, none);
  volume_create = λ name t vs. (vs ++ record { name = name; created_at = t } ∷ [], none);
}

listed-IsDocker : IsDocker listed
unfolding created_of
listed-IsDocker = record {
  inspects_own = λ vs v t has inspected. cc (sym (ap created_of has) ∙ inspected);
  removes_named = λ vs v name has other. find_volume-without v.name name vs other ∙ has;
  creates_beside = λ vs v name t has. find_volume-append v.name vs _ v has;
}

abbrev young : Volume
young = record { name = "tas-build-7"; created_at = 1000 }

-- Of two caches the cleaning removes the one that is older than four hours.
abbrev cleaned : List Volume
cleaned =
    remove_old_volumes listed (λ name. 14400000000900)
      (record { name = "tas-build-6"; created_at = 5 } ∷ young ∷ [])

cleaned_lem : cleaned ≡ young ∷ []
unfolding remove_old_volumes visit_all find_volume without_volume created_of has_prefix
cleaned_lem = refl

Reach-keeps_example :
    find_volume "tas-build-7" (
      remove_old_volumes listed
        (λ name. 14400000000900)
        (record { name = "tas-build-6"; created_at = 5 } ∷ young ∷ []))
    ≡ some young
unfolding find_volume
Reach-keeps_example =
    Reach-keeps listed listed-IsDocker young
      (next {p = (1000, record { name = "tas-build-6"; created_at = 5 } ∷ young ∷ [])} here
        (cleans 14400000000900 (λ name. 14400000000900) (omega arith) (λ name. omega arith)))
      (omega arith) refl
