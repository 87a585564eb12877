-- ===== src/Url/Laws.antt =====
-- What the addresses of pkg/urlmanager promise.
use test_at_scale.Prelude.{String, ◌≡◌, ◌≢◌, Bool, false, ◌||◌, ◌⧺◌, refl, arith, str_eq}
use test_at_scale.Errs.{Result, ok, err, sentinel, unsupported_git_provider, is_ok}
use test_at_scale.Models.{ℤ, github, gitlab, bitbucket}
use test_at_scale.Url.{
  Globals, path_escape, api_host_url, without_first, get_clone_url, get_commit_diff_url,
  get_pull_request_diff_url, get_file_download_url,
}
use test_at_scale.Url.Escape.Slash.{IsSegment, path_escape-IsSegment}

abbrev pub is_supported : String → Bool
is_supported provider =
    str_eq provider github || str_eq provider gitlab || str_eq provider bitbucket

-- The two things that a call may come to: an address for the providers that are known, and else the
-- one error for all others.
abbrev pub IsAnswered : String → Result String → Type 0
IsAnswered provider r =
    (is_ok r ≡ is_supported provider)
    × (is_supported provider ≡ false → r ≡ err (sentinel unsupported_git_provider))

-- Outside the test environment, on a repository path that is not empty, the three addresses of a
-- build (its archive, the diff of its commits, the diff of its pull request) exist exactly for
-- github, gitlab and bitbucket; for any other provider each call returns the error
-- ErrUnsupportedGitProvider.
pub addresses_by_provider :
    (g : Globals) (provider link path repo base target fork slug : String) (number : ℤ)
    → g.test_env ≡ false
    → path ≢ ""
    → IsAnswered provider (get_clone_url g provider link repo target fork slug)
      × IsAnswered provider (get_commit_diff_url g provider path base target fork)
      × IsAnswered provider (get_pull_request_diff_url g provider path number)
unfolding get_clone_url get_commit_diff_url get_pull_request_diff_url without_first
addresses_by_provider g provider link String.[] repo base target fork slug number live some_path =
    absurd (some_path refl)
addresses_by_provider g provider link (String.◌∷◌ c p) repo base target fork slug number live
      some_path =
    ground arith

-- Outside the test environment, the address of a file on GitLab is made of the escaped repository
-- and the escaped file path, each of which is a single path segment: it holds no slash.
gitlab_file_segments :
    (g : Globals) (commit repo file : String)
    → g.test_env ≡ false
    → (r : String) × (f : String) × IsSegment r
      × IsSegment f
      × (get_file_download_url g gitlab commit repo file
          ≡ ok (api_host_url gitlab ⧺ "/" ⧺ r ⧺ "/repository/files/" ⧺ f ⧺ "/raw?ref=" ⧺ commit))
unfolding get_file_download_url
gitlab_file_segments g commit repo file live = (
  path_escape repo,
  path_escape file,
  path_escape-IsSegment repo,
  path_escape-IsSegment file,
  rw live,
)
