-- ===== src/Runner.antt =====
-- pkg/runner/docker/docker.go: the containers that synapse runs.
-- The docker daemon, the secrets, the environment and the file system answer through `Daemon`. A
-- method that writes to the shared `RunnerOptions` or to `RunningContainers` returns the new value.
pub mod Host
pub mod Remove
pub mod Launch
pub mod Volumes
pub mod Client
pub mod Tests
unfoldable pub use Remove.{find_container, remove_container_id}
use test_at_scale.Prelude.{
  ℕ, String, ◌⧺◌, Bool, true, false, ◌&&◌, not, Option, none, some, List, [], ◌∷◌, ◌++◌, Dict,
  lookup, any, str_eq, ◌==◌, if◌then◌else◌,
}
use test_at_scale.Errs.{
  Err, CodedErr, coded, no_error, message, docker_run, docker_crt, docker_strt, docker_vol_crt,
  docker_cp, secret_load, error, Reply, got, refused,
}
use test_at_scale.Models.{RunnerOptions, ContainerStatus, ContainerImageConfig, nucleus_pod, pos}
use test_at_scale.Format.{decimal}
use test_at_scale.Runner.Host.{HostConfig, host_config, text_or_empty, volume_name}

-- What arrives first while a container is waited for: something on the error channel, which may be
-- nil, or the exit status.
pub data WaitEvent : Type 0 where
  wait_error : Option Err → WaitEvent
  exited : ℕ → WaitEvent

pub record Daemon : Type 0 where
  pub docker_secrets : RunnerOptions → Reply ContainerImageConfig
  pub volume_list : String → Reply (List String)
  pub volume_create : String → Option Err
  pub image_pull : ContainerImageConfig → Option Err
  pub network_list : Reply (List (String × String))
  pub container_create : RunnerOptions → HostConfig → String → String → String × Option Err
  pub git_secret : Reply String
  pub repo_secret : String → Reply String
  pub copy_to_container : String → String → String → Option Err
  pub container_start : String → Option Err
  pub container_wait : String → WaitEvent
  pub container_stop : String → Option Err
  pub container_remove : String → Option Err
  pub auto_remove : Option Bool
  pub network_name : String
  pub local : String
  pub synapse_host : String

abbrev pub created : ContainerStatus
created = record { done = true; error = no_error }

abbrev pub failure : CodedErr → ContainerStatus
failure e = record { done = false; error = e }

-- `FindVolumes`, and the rest of `CreateVolume`.
abbrev create_unless_found : Daemon → String → Reply (List String) → Option Err
create_unless_found d name (refused e) = some e
create_unless_found d name (got names) =
    if any (λ n. str_eq n name) names then none else d.volume_create name

unfoldable pub create_volume : Daemon → RunnerOptions → Option Err
create_volume d r = create_unless_found d (volume_name r) (d.volume_list (volume_name r))

unfoldable pub pull_image : Daemon → ContainerImageConfig → RunnerOptions → Option Err
pull_image d c r =
    if str_eq c.pull_policy "never" && str_eq r.pod_type nucleus_pod then none else d.image_pull c

-- The last network of the list that has the name; the zero network if there is none.
unfoldable pub network_id : String → String → List (String × String) → String
network_id name found [] = found
network_id name found ((n, id) ∷ ns) = network_id name (if str_eq n name then id else found) ns

-- The end of `Create`: a missing repo secret is passed over, a failing copy is not.
unfoldable pub copy_repo_secret : Daemon → RunnerOptions → Reply String → ContainerStatus
copy_repo_secret d r (refused e) = created
copy_repo_secret d r (got secret) = elim (d.copy_to_container r.container_id "reposecrets" secret) [
  | none ↦ created
  | some e ↦ failure (docker_cp (message e))
]

unfoldable pub copy_secrets : Daemon → RunnerOptions → Reply String → ContainerStatus
copy_secrets d r (refused e) = failure (secret_load (message e))
copy_secrets d r (got secret) = elim (d.copy_to_container r.container_id "oauth" secret) [
  | some e ↦ failure (docker_cp (message e))
  | none ↦ copy_repo_secret d r (d.repo_secret (text_or_empty (lookup "repo" r.label)))
]

-- From the answer of `ContainerCreate` on: the id is stored before its error is looked at.
unfoldable pub after_create :
    Daemon → RunnerOptions → String × Option Err → RunnerOptions × ContainerStatus
after_create d r (id, some e) = (record r { container_id = id }, failure (docker_crt (message e)))
after_create d r (id, none) =
    let r' = record r { container_id = id } in (r', copy_secrets d r' d.git_secret)

unfoldable pub create_in_network :
    Daemon → RunnerOptions → Reply (List (String × String)) → RunnerOptions × ContainerStatus
create_in_network d r (refused e) = (r, failure (docker_crt (message e)))
create_in_network d r (got networks) = after_create d r (
    d.container_create r (host_config d.auto_remove r) (network_id d.network_name "" networks)
      (r.container_name ⧺ "-" ⧺ r.pod_type))

unfoldable pub create_from :
    Daemon → RunnerOptions → Reply ContainerImageConfig → RunnerOptions × ContainerStatus
create_from d r (refused e) = (r, failure (docker_crt (message e)))
create_from d r (got image) = elim (create_volume d r) [
  | some e ↦ (r, failure (docker_vol_crt (message e)))
  | none ↦ elim (pull_image d image r) [
    | some e ↦ (r, failure (docker_crt (message e)))
    | none ↦ create_in_network d r d.network_list
  ]
]

unfoldable pub create : Daemon → RunnerOptions → RunnerOptions × ContainerStatus
create d r = create_from d r (d.docker_secrets r)

-- `Run`, without the writing of the logs, whose error is only logged.
abbrev after_start :
    List RunnerOptions → RunnerOptions → Option Err → List RunnerOptions × ContainerStatus
after_start running r (some e) = (running, failure (docker_strt (message e)))
after_start running r none = (running ++ r ∷ [], created)

unfoldable pub run :
    Daemon → List RunnerOptions → RunnerOptions → List RunnerOptions × ContainerStatus
run d running r = after_start running r (d.container_start r.container_id)

unfoldable pub wait_result : WaitEvent → Option Err
wait_result (wait_error o) = o
wait_result (exited status) =
    if not (status == 0)
    then some (coded (docker_run ("Received non zero status code " ⧺ decimal (pos status))))
    else none

unfoldable pub wait_for_completion : Daemon → RunnerOptions → Option Err
unfolding wait_result
wait_for_completion d r = wait_result (d.container_wait r.container_id)

-- `Initiate` up to the wait: what it sends at once, or the container that now runs.
pub data Launched : Type 0 where
  reported : ContainerStatus → Launched
  waiting : RunnerOptions → Launched

abbrev pub with_args : Daemon → RunnerOptions → RunnerOptions
with_args d r = record r {
  container_args = r.container_args ++ "--local" ∷ d.local ∷ "--synapsehost" ∷ d.synapse_host ∷ [];
}

unfoldable pub launch_created :
    Daemon → List RunnerOptions → RunnerOptions × ContainerStatus → List RunnerOptions × Launched
launch_created d running (r, status) =
    if not status.done
    then (running, reported status)
    else let (running', started) = run d running r in
      if not started.done then (running', reported started) else (running', waiting r)

unfoldable pub launch : Daemon → List RunnerOptions → RunnerOptions → List RunnerOptions × Launched
launch d running r = launch_created d running (create d (with_args d r))

abbrev pub ended : Option Err → ContainerStatus
ended none = created
ended (some e) = failure (docker_run (message e))

-- The rest of `Initiate`: the wait, the removal from the list and the status that is sent.
unfoldable pub complete :
    Daemon → List RunnerOptions → RunnerOptions → List RunnerOptions × ContainerStatus
complete d running r = (remove_container_id running r, ended (wait_for_completion d r))

unfoldable pub destroy : Daemon → RunnerOptions → Option Err
destroy d r = elim (d.container_stop r.container_id) [
  | some e ↦ some e
  | none ↦ elim d.auto_remove [
    | none ↦ some (error "error reading AutoRemove os env error")
    | some auto ↦ if auto then none else d.container_remove r.container_id
  ]
]

-- `KillContainerForBuildID` stops at the first container of the build.
unfoldable pub kill_container_for_build_id : Daemon → List RunnerOptions → String → Option Err
kill_container_for_build_id d [] build_id = none
kill_container_for_build_id d (r ∷ running) build_id =
    if str_eq (text_or_empty (lookup "build-id" r.label)) build_id
    then destroy d r
    else kill_container_for_build_id d running build_id
