-- ===== src/Diff/Fetch.antt =====
-- Which diffs the diff manager finds, and which errors it reports when there is none.
use test_at_scale.Prelude.{
  ℕ, String, ◌≡◌, ◌≢◌, inl, inr, Bool-cases, true, false, Dict, str_eq, eq_iff, arith,
  if◌then◌else◌,
}
use test_at_scale.Errs.{
  error, sentinel, git_diff_not_found, unsupported_git_provider, ok, err, >>=-eq-ok,
}
use test_at_scale.Models.{Payload, Oauth, event_pull_request}
use test_at_scale.Url.{Globals, get_commit_diff_url, get_pull_request_diff_url}
use test_at_scale.Url.Laws.{is_supported}
use test_at_scale.Diff.{
  Http, Request, Response, get_commit_diff, get_pr_diff, fetch_diff, parse_git_diff,
  get_changed_files,
}

parse_git_diff-is_supported :
    (g : Globals) (http : Http) (provider event_type diff : String)
    → is_supported provider ≡ false
    → parse_git_diff g http provider event_type diff ≡ err (sentinel unsupported_git_provider)
unfolding parse_git_diff
parse_git_diff-is_supported g http provider event_type diff h = ground arith

-- In every environment, with any answers of the hosts, changed files are found only for github,
-- gitlab and bitbucket.
get_changed_files-is_supported :
    (g : Globals) (http : Http) (payload : Payload) (oauth : Oauth) (m : Dict ℕ)
    → get_changed_files g http payload oauth ≡ ok m
    → is_supported payload.git_provider ≡ true
unfolding get_changed_files
get_changed_files-is_supported g http payload oauth m h =
    elim (Bool-cases (is_supported payload.git_provider)) [
      | inl known ↦ known
      | inr unknown ↦
          let (diff, _, parsed) =
            >>=-eq-ok (fetch_diff g http payload oauth)
              (parse_git_diff g http payload.git_provider payload.event_type) h in
          cc (
            parsed,
            parse_git_diff-is_supported g http payload.git_provider payload.event_type diff unknown,
          )
    ]

-- For an event that is no pull request, an empty base commit gives ErrGitDiffNotFound whatever the
-- hosts would answer.
no_base_no_diff :
    (g : Globals) (http : Http) (payload : Payload) (oauth : Oauth)
    → payload.event_type ≢ event_pull_request
    → payload.build_base_commit ≡ ""
    → get_changed_files g http payload oauth ≡ err (sentinel git_diff_not_found)
unfolding get_changed_files fetch_diff get_commit_diff
no_base_no_diff g http payload oauth pushed no_base =
    ground
      (arith, eq_iff payload.event_type event_pull_request, eq_iff payload.build_base_commit "")

-- When the addresses can be built and the host answers every request with a status other than 200,
-- a pull request fails with the error "non 200 response", while any other event with a base commit
-- reports ErrGitDiffNotFound.
non_200_answers :
    (g : Globals) (http : Http) (payload : Payload) (oauth : Oauth) (path api pr_api : String)
    (resp : Response)
    → http.parse_path payload.repo_link ≡ ok path
    → get_commit_diff_url g payload.git_provider path payload.build_base_commit
        payload.build_target_commit payload.fork_slug
      ≡ ok api
    → get_pull_request_diff_url g payload.git_provider path payload.pull_request_number ≡ ok pr_api
    → ((url : String) → http.canonical url ≡ ok url)
    → ((r : Request) → http.send r ≡ ok resp)
    → resp.status_code ≢ 200
    → payload.build_base_commit ≢ ""
    → get_changed_files g http payload oauth ≡ (
        if str_eq payload.event_type event_pull_request
        then err (error "non 200 response")
        else err (sentinel git_diff_not_found))
unfolding get_changed_files fetch_diff get_commit_diff get_pr_diff
non_200_answers g http payload oauth path api pr_api resp parsed address pr_address canonical
      answered bad based =
    simp (parsed, address, pr_address, canonical, answered)
      (ground (arith, eq_iff payload.build_base_commit ""))
