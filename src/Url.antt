-- ===== src/Url.antt =====
-- pkg/urlmanager/urlmanager.go, with the api hosts of pkg/global/nucleusconstants.go.
-- `Globals` is the package state `TestEnv` and `TestServer`. The path of a repository is cut by
-- `path[1:]` for GitLab, which panics on an empty path.
mod Escape
pub mod Laws
pub mod Tests
unfoldable pub use Escape.{query_escape, path_escape, replace_all}
use Prim.Native.String.{[], ◌∷◌}
use test_at_scale.Prelude.{
  String, Bool, true, false, Option, none, some, ◌⧺◌, str_eq, not, if◌then◌else◌,
}
use test_at_scale.Errs.{Result, ok, err, panicked, sentinel, unsupported_git_provider, ◌>>=◌}
use test_at_scale.Format.{decimal}
use test_at_scale.Models.{ℤ, github, gitlab, bitbucket}

pub record Globals : Type 0 where
  pub test_env : Bool
  pub test_server : String

-- `global.APIHostURLMap`
unfoldable pub api_host_url : String → String
api_host_url provider =
    if str_eq provider github
    then "https://api.github.com/repos"
    else if str_eq provider gitlab
    then "https://gitlab.com/api/v4/projects"
    else if str_eq provider bitbucket
    then "https://api.bitbucket.org/2.0"
    else ""

-- `path[1:]`
unfoldable pub without_first : String → Result String
without_first [] = panicked
without_first (c ∷ s) = ok s

unfoldable pub get_clone_url :
    Globals → String → String → String → String → String → String → Result String
get_clone_url g provider repo_link repo commit_id fork_slug repo_slug =
    if g.test_env
    then ok g.test_server
    else if str_eq provider github
    then ok (api_host_url provider ⧺ "/" ⧺ repo_slug ⧺ "/zipball/" ⧺ commit_id)
    else if str_eq provider gitlab
    then ok (repo_link ⧺ "/-/archive/" ⧺ commit_id ⧺ "/" ⧺ repo ⧺ "-" ⧺ commit_id ⧺ ".zip")
    else if str_eq provider bitbucket
    then (if not (str_eq fork_slug "")
        then ok (replace_all repo_link repo_slug fork_slug ⧺ "/get/" ⧺ commit_id ⧺ ".zip")
        else ok (repo_link ⧺ "/get/" ⧺ commit_id ⧺ ".zip"))
    else err (sentinel unsupported_git_provider)

unfoldable pub get_commit_diff_url :
    Globals → String → String → String → String → String → Result String
get_commit_diff_url g provider path base_commit target_commit fork_slug =
    if g.test_env
    then ok g.test_server
    else if str_eq provider github
    then ok (api_host_url provider ⧺ path ⧺ "/compare/" ⧺ base_commit ⧺ "..." ⧺ target_commit)
    else if str_eq provider gitlab
    then (do
      rest ← without_first path
      ok (
          api_host_url provider
          ⧺ "/"
          ⧺ query_escape rest
          ⧺ "/repository/compare?from="
          ⧺ base_commit
          ⧺ "&to="
          ⧺ target_commit))
    else if str_eq provider bitbucket
    then (if not (str_eq fork_slug "")
        then ok (
            api_host_url provider
            ⧺ "/repositories"
            ⧺ path
            ⧺ "/diff/"
            ⧺ (fork_slug ⧺ ":" ⧺ target_commit)
            ⧺ ".."
            ⧺ base_commit)
        else ok (
            api_host_url provider
            ⧺ "/repositories"
            ⧺ path
            ⧺ "/diff/"
            ⧺ target_commit
            ⧺ ".."
            ⧺ base_commit))
    else err (sentinel unsupported_git_provider)

unfoldable pub get_pull_request_diff_url : Globals → String → String → ℤ → Result String
get_pull_request_diff_url g provider path pr_number =
    if g.test_env
    then ok g.test_server
    else if str_eq provider github
    then ok (api_host_url provider ⧺ path ⧺ "/pulls/" ⧺ decimal pr_number)
    else if str_eq provider gitlab
    then (do
      rest ← without_first path
      ok (
          api_host_url provider
          ⧺ "/"
          ⧺ query_escape rest
          ⧺ "/merge_requests/"
          ⧺ decimal pr_number
          ⧺ "/changes"))
    else if str_eq provider bitbucket
    then ok (
        api_host_url provider
        ⧺ "/repositories"
        ⧺ path
        ⧺ "/pullrequests/"
        ⧺ decimal pr_number
        ⧺ "/diff")
    else err (sentinel unsupported_git_provider)

-- Unlike the others, this returns the empty text and no error for an unknown provider.
unfoldable pub get_file_download_url : Globals → String → String → String → String → Result String
get_file_download_url g provider commit_id repo_slug file_path =
    if g.test_env
    then ok g.test_server
    else if str_eq provider github
    then ok ("https://raw.githubusercontent.com/" ⧺ repo_slug ⧺ "/" ⧺ commit_id ⧺ "/" ⧺ file_path)
    else if str_eq provider gitlab
    then ok (
        api_host_url provider
        ⧺ "/"
        ⧺ path_escape repo_slug
        ⧺ "/repository/files/"
        ⧺ path_escape file_path
        ⧺ "/raw?ref="
        ⧺ commit_id)
    else if str_eq provider bitbucket
    then ok (
        api_host_url provider
        ⧺ "/repositories/"
        ⧺ repo_slug
        ⧺ "/src/"
        ⧺ commit_id
        ⧺ "/"
        ⧺ file_path)
    else ok ""
