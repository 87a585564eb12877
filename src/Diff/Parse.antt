-- ===== src/Diff/Parse.antt =====
-- `updateWithOr`, `parseDiff` and `parseGitLabDiff` of pkg/diffmanager/setup.go.
use Prim.Native.Nat.{bit_or}
use test_at_scale.Prelude.{
  ℕ, String, Bool, List, [], ◌∷◌, Option, none, some, Dict, lookup, insert, str_eq, has_prefix,
  text_drop, if◌then◌else◌,
}
use test_at_scale.Models.{file_added, file_removed, file_modified, event_push}
use test_at_scale.Diff.Lines.{scan_lines}

pub record GitLabDiff : Type 0 where
  pub old_path : String
  pub new_path : String
  pub new_file : Bool
  pub renamed_file : Bool
  pub deleted_file : Bool

pub record GitLabDiffList : Type 0 where
  pub commit_diff : List GitLabDiff
  pub pr_diff : List GitLabDiff

-- The value of a key, 0 where there is none.
abbrev pub value_or_0 : Option ℕ → ℕ
value_or_0 none = 0
value_or_0 (some v) = v

unfoldable pub update_with_or : Dict ℕ → String → ℕ → Dict ℕ
update_with_or m key value = insert key (bit_or (value_or_0 (lookup key m)) value) m

unfoldable pub diff_line : Dict ℕ → String → Dict ℕ
diff_line m line =
    if has_prefix line "--- a/"
    then update_with_or m (text_drop 6 line) file_removed
    else if has_prefix line "+++ b/"
    then update_with_or m (text_drop 6 line) file_added
    else m

unfoldable pub diff_lines : Dict ℕ → List String → Dict ℕ
diff_lines m [] = m
diff_lines m (line ∷ lines) = diff_lines (diff_line m line) lines

unfoldable pub parse_diff : String → Dict ℕ
unfolding diff_lines
parse_diff diff = diff_lines [] (scan_lines diff)

-- One round of the loop of `parseGitLabDiff`.
unfoldable pub gitlab_entry : Dict ℕ → GitLabDiff → Dict ℕ
gitlab_entry m d =
    if d.deleted_file
    then update_with_or m d.old_path file_removed
    else if d.new_file
    then update_with_or m d.new_path file_added
    else update_with_or m d.new_path file_modified

unfoldable pub gitlab_entries : Dict ℕ → List GitLabDiff → Dict ℕ
gitlab_entries m [] = m
gitlab_entries m (d ∷ ds) = gitlab_entries (gitlab_entry m d) ds

unfoldable pub parse_gitlab_diff : String → GitLabDiffList → Dict ℕ
unfolding gitlab_entries
parse_gitlab_diff event_type list =
    gitlab_entries [] (if str_eq event_type event_push then list.commit_diff else list.pr_diff)
