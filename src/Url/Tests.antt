-- ===== src/Url/Tests.antt =====
-- Addresses of each provider, evaluated, and the results at concrete inputs.
use test_at_scale.Prelude.{String, ◌≡◌, ◌≢◌, refl, false, arith, eq_iff}
use test_at_scale.Errs.{ok}
use test_at_scale.Format.{decimal, digit}
use test_at_scale.Models.{pos, gitlab, bitbucket}
use test_at_scale.Url.{
  Globals, query_escape, replace_all, api_host_url, without_first, get_clone_url,
  get_pull_request_diff_url,
}

abbrev production : Globals
production = record { test_env = false; test_server = "" }

escapes : query_escape "a/b c+é" ≡ "a%2Fb+c%2B%C3%A9"
unfolding query_escape digit
escapes = refl

numbers : decimal (pos 1204) ≡ "1204"
unfolding decimal
numbers = refl

merge_request :
    get_pull_request_diff_url production gitlab "/group/repo" (pos 12)
    ≡ ok "https://gitlab.com/api/v4/projects/group%2Frepo/merge_requests/12/changes"
unfolding get_pull_request_diff_url api_host_url without_first query_escape decimal
merge_request = refl

fork_archive :
    get_clone_url production bitbucket "https://bitbucket.org/a/b" "b" "abc" "c/d" "a/b"
    ≡ ok "https://bitbucket.org/c/d/get/abc.zip"
unfolding get_clone_url api_host_url replace_all
fork_archive = refl

some_path : ◌≢◌ {A = String} "/a/b" ""
some_path e = absurd (ground (arith, eq_iff "/a/b" ""))
