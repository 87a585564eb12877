-- ===== src/Diff.antt =====
-- pkg/diffmanager/setup.go: which files a commit or a pull request changes.
-- The hosts answer through `Http`: what `url.Parse` makes of an address, what the client does with a
-- request, and what `json.Unmarshal` makes of a GitLab answer; none of these is under the source.
mod Lines
mod Parse
pub mod Changes
pub mod Fetch
pub mod Tests
unfoldable pub use Lines.{scan_lines}
unfoldable pub use Parse.*
use Prim.Native.Nat.{bit_or}
use test_at_scale.Prelude.{
  ℕ, String, [], ◌∷◌, ◌⧺◌, Bool, true, false, List, Option, none, some, Dict, str_eq, ◌==◌, not,
  if◌then◌else◌, ◌||◌,
}
use test_at_scale.Errs.{
  Err, error, sentinel, git_diff_not_found, unsupported_git_provider, Result, ok, err, ◌>>=◌, ◌>>◌,
  refuse_if,
}
use test_at_scale.Models.{Payload, Oauth, ℤ, github, gitlab, bitbucket, event_pull_request}
use test_at_scale.Url.{Globals, get_commit_diff_url, get_pull_request_diff_url}

pub record Request : Type 0 where
  pub url : String
  pub headers : List (String × String)

pub record Response : Type 0 where
  pub status_code : ℕ
  pub body : Result String

-- `parse_path` is the path of what `url.Parse` reads, `canonical` its `String()` after a parse;
-- `send` is `http.NewRequest` and `client.Do` together.
pub record Http : Type 0 where
  pub parse_path : String → Result String
  pub canonical : String → Result String
  pub send : Request → Result Response
  pub unmarshal : String → Result GitLabDiffList

abbrev pub accept : String × String
accept = ("Accept", "application/vnd.github.v3.diff")

abbrev pub authorization : Oauth → String × String
authorization oauth = ("Authorization", oauth.type ⧺ " " ⧺ oauth.access_token)

module _ (g : Globals) (http : Http) where
  pub get_commit_diff : String → String → Oauth → String → String → String → Result String
  get_commit_diff provider repo_url oauth base target fork = do
    refuse_if (str_eq base "") (sentinel git_diff_not_found)
    path ← http.parse_path repo_url
    api ← get_commit_diff_url g provider path base target fork
    url ← http.canonical api
    resp ← http.send (record {
      url = url;
      headers =
          if not (str_eq oauth.access_token "")
          then authorization oauth ∷ accept ∷ []
          else accept ∷ [];
    })
    refuse_if (not (resp.status_code == 200)) (sentinel git_diff_not_found)
    resp.body

  pub get_pr_diff : String → String → ℤ → Oauth → Result String
  get_pr_diff provider repo_url number oauth = do
    path ← http.parse_path repo_url
    diff ← get_pull_request_diff_url g provider path number
    url ← http.canonical diff
    resp ← http.send (record { url = url; headers = authorization oauth ∷ accept ∷ [] })
    refuse_if (not (resp.status_code == 200)) (error "non 200 response")
    resp.body

  pub parse_git_diff : String → String → String → Result (Dict ℕ)
  parse_git_diff provider event_type diff =
      if str_eq provider github || str_eq provider bitbucket
      then ok (parse_diff diff)
      else if str_eq provider gitlab
      then (do list ← http.unmarshal diff; ok (parse_gitlab_diff event_type list))
      else err (sentinel unsupported_git_provider)

  -- The first half of `GetChangedFiles`: the text of the diff.
  pub fetch_diff : Payload → Oauth → Result String
  fetch_diff payload oauth =
      if str_eq payload.event_type event_pull_request
      then get_pr_diff payload.git_provider payload.repo_link payload.pull_request_number oauth
      else get_commit_diff payload.git_provider payload.repo_link oauth payload.build_base_commit
          payload.build_target_commit payload.fork_slug

  pub get_changed_files : Payload → Oauth → Result (Dict ℕ)
  get_changed_files payload oauth = do
    diff ← fetch_diff payload oauth
    parse_git_diff payload.git_provider payload.event_type diff
