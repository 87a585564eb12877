-- ===== src/Diff/Tests.antt =====
-- Diffs of a few files, evaluated.
use test_at_scale.Prelude.{
  arith, eq_iff, ◌≢◌, ℕ, any, true, false, String, ◌≡◌, refl, [], ◌∷◌, lookup, insert, has_prefix,
  text_drop,
}
use test_at_scale.Errs.{ok, err, foreign}
use test_at_scale.Models.{Oauth, Payload, bearer, event_pull_request, event_push}
use test_at_scale.PayloadManager.Tests.{payload}
use test_at_scale.Url.{Globals, get_pull_request_diff_url, api_host_url, without_first}
use test_at_scale.Diff.Parse.{GitLabDiffList}
use test_at_scale.Diff.Changes.{mark, is_removed_side, is_added_side, parse_diff_marks}
use test_at_scale.Diff.{
  Http, get_changed_files, fetch_diff, get_pr_diff, parse_git_diff, parse_diff, scan_lines,
  diff_line, update_with_or,
}

abbrev sample : String
sample =
    "diff --git a/x b/x\n--- a/x\n+++ b/x\n@@ -1 +1 @@\n-a\n+b\n--- a/old\r\n+++ /dev/null\n--- /dev/null\n+++ b/new"

sample_changes : parse_diff sample ≡ ("x", 3) ∷ ("old", 2) ∷ ("new", 1) ∷ []
unfolding parse_diff diff_line update_with_or scan_lines has_prefix text_drop insert lookup
sample_changes = refl

lines_of_text : scan_lines "a\r\n\nb" ≡ "a" ∷ "" ∷ "b" ∷ []
unfolding scan_lines
lines_of_text = refl

parse_diff_marks_example :
    lookup "x" (parse_diff sample)
    ≡ mark
        (any (is_removed_side "x") (scan_lines sample))
        (any (is_added_side "x") (scan_lines sample))
parse_diff_marks_example = parse_diff_marks sample "x"

abbrev answer : GitLabDiffList
answer = record {
  commit_diff =
      record {
        old_path = "a";
        new_path = "b";
        new_file = false;
        renamed_file = true;
        deleted_file = false;
      }
      ∷ [];
  pr_diff = [];
}

abbrev production : Globals
production = record { test_env = false; test_server = "" }

abbrev oauth : Oauth
oauth = record { access_token = "t"; expiry = 0; refresh_token = ""; type = bearer }

-- Hosts that answer every request with one status and the sample.
abbrev hosts : ℕ → Http
hosts status = record {
  parse_path = λ _. ok "/a/b";
  canonical = λ url. ok url;
  send = λ _. ok (record { status_code = status; body = ok sample });
  unmarshal = λ _. err (foreign "no json");
}

abbrev pull : Payload
pull = record payload { event_type = event_pull_request; build_base_commit = "base" }

pull_changes :
    get_changed_files production (hosts 200) pull oauth
    ≡ ok (("x", 3) ∷ ("old", 2) ∷ ("new", 1) ∷ [])
unfolding get_changed_files fetch_diff get_pr_diff get_pull_request_diff_url without_first
    parse_git_diff parse_diff diff_line update_with_or scan_lines has_prefix text_drop insert lookup
    api_host_url
pull_changes = refl

push_is_no_pull : ◌≢◌ {A = String} event_push event_pull_request
push_is_no_pull e = absurd (ground (arith, eq_iff event_push event_pull_request))

based : ◌≢◌ {A = String} "base" ""
based e = absurd (ground (arith, eq_iff "base" ""))
