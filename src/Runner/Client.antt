-- ===== src/Runner/Client.antt =====
-- The client of the docker daemon in pkg/runner/docker/docker.go: how the runner is made, and the copy of
-- one file into a container, which the other modules call by `copy_to_container`.
-- Package tar and the client answer through parameters; a float is kept as its bits.
use test_at_scale.Prelude.{ℕ, ◌/◌, String, Option, none, some}
use test_at_scale.Errs.{Err, Result, check, ◌>>◌, Reply, got, refused}

-- A header and the content of an archive's only file, and the copy of the archive.
pub record Archives : Type 0 where
  pub write_header : String → Option Err
  pub write : String → Option Err
  pub copy_archive : String → String → Option Err

unfoldable pub copy_file_to_container : Archives → String → String → String → Result (Unit {0})
copy_file_to_container a file_name container_id content =
    check (a.write_header file_name)
    >> check (a.write content)
    >> check (a.copy_archive container_id "/vault/secrets")

pub record Info : Type 0 where
  pub cpu : ℕ
  pub ram : ℕ

pub record Client : Type 0 where
  pub cpu : ℕ
  pub ram : ℕ
  pub network_name : String

-- `newDockerClient`, and `New`, which adds the logger and the configuration.
abbrev pub client_of : String → Reply Info → Reply Client
client_of network (refused e) = refused e
client_of network (got info) =
    got (record { cpu = info.cpu; ram = info.ram / 1048576; network_name = network })

unfoldable pub new_docker_client : Option Err → Reply Info → String → Reply Client
new_docker_client (some e) info network = refused e
new_docker_client none info network = client_of network info

unfoldable pub get_info : Client → ℕ × ℕ
get_info c = (c.cpu, c.ram)
