-- ===== src/Git/Tests.antt =====
-- A clone from github that succeeds, and pieces of addresses and tokens.
use test_at_scale.Prelude.{String, ◌⧺◌, ◌≡◌, refl, false, none, has_suffix}
use test_at_scale.Errs.{ok, panicked}
use test_at_scale.Models.{Oauth, bearer, basic}
use test_at_scale.PayloadManager.Tests.{payload}
use test_at_scale.Url.{Globals, get_clone_url}
use test_at_scale.Requests.{retry, make_api_request}
use test_at_scale.Requests.Tests.{web}
use test_at_scale.Command.{execute_internal_commands}
use test_at_scale.Command.Tests.{shell}
use test_at_scale.Git.Parts.{last_item, has_slash, behind_colon}
use test_at_scale.Git.{Disk, clone, download_file, copy_and_extract_file, init_git, url_with_token}
use test_at_scale.Git.Cloned.{IsFetched, IsInitialized, clone-IsFetched}

abbrev disk : Disk
disk = record {
  write_file = λ path body. none;
  unarchive = λ path target. none;
  dir_of = λ path. ".";
  decode_base64 = λ token. ok token;
  parse_url = λ url. none;
  with_user = λ url user password. "https://" ⧺ user ⧺ ":" ⧺ password ⧺ "@h/a/b";
  uuid = "u";
}

abbrev production : Globals
production = record { test_env = false; test_server = "" }

abbrev oauth : Oauth
oauth = record { access_token = "t"; expiry = 0; refresh_token = ""; type = bearer }

name_of_repository : last_item "https://github.com/a/b" ≡ "b"
unfolding last_item has_slash
name_of_repository = refl

-- A basic token without a colon ends in a panic.
panics : url_with_token disk payload (record oauth { type = basic }) "https://h/a/b" ≡ panicked
unfolding url_with_token behind_colon
panics = refl

clones : clone production disk shell web payload oauth ≡ ok tt
unfolding clone get_clone_url download_file copy_and_extract_file init_git url_with_token
    make_api_request retry execute_internal_commands has_suffix
clones = refl

clone-IsFetched_example :
    (url : String) × (get_clone_url production payload.git_provider payload.repo_link
        (last_item payload.repo_link)
        payload.build_target_commit
        payload.fork_slug
        payload.repo_slug
      ≡ ok url)
    × IsFetched disk web payload oauth url
    × IsInitialized disk shell payload oauth
clone-IsFetched_example = clone-IsFetched production disk shell web payload oauth clones
