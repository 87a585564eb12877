-- ===== src/Diff/Changes.antt =====
-- What the parsed diffs say of each file, against a description that does not build a map.
use Prim.Native.Nat.{bit_or}
use Prim.Native.String.{◌∷◌}
use test_at_scale.Prelude.{
  ℕ, String, ◌⧺◌, ◌≡◌, refl, Bool, true, false, not, ◌||◌, ◌&&◌, List, [], ◌∷◌, any, Option, none,
  some, Dict, lookup, lookup-insert, str_eq, eq_iff, has_prefix, text_drop, text_length,
  str_eq-append, arith, if◌then◌else◌, Bool-cases, inl, inr,
}
use test_at_scale.Models.{event_push}
use test_at_scale.Diff.Lines.{scan_lines}
use test_at_scale.Diff.Parse.{
  GitLabDiff, GitLabDiffList, value_or_0, update_with_or, diff_line, diff_lines, parse_diff,
  gitlab_entry, gitlab_entries, parse_gitlab_diff,
}

-- How the diff manager reports a file of which a removed and an added side were seen or not.
abbrev pub mark : Bool → Bool → Option ℕ
mark false false = none
mark false true = some 1
mark true false = some 2
mark true true = some 3

abbrev pub is_removed_side : String → String → Bool
is_removed_side file line = str_eq line ("--- a/" ⧺ file)

abbrev pub is_added_side : String → String → Bool
is_added_side file line = str_eq line ("+++ b/" ⧺ file)

lookup-update_with_or :
    (file key : String) (value : ℕ) (m : Dict ℕ)
    → lookup file (update_with_or m key value) ≡ (
        if str_eq key file then some (bit_or (value_or_0 (lookup file m)) value) else lookup file m)
unfolding update_with_or
lookup-update_with_or file key value m = rw lookup-insert (elim (Bool-cases (str_eq key file)) [
  | inl same ↦ rw (same, (eq_iff key file).0 same)
  | inr other ↦ rw other
])

sides_differ : (line : String) → has_prefix line "--- a/" ≡ true → has_prefix line "+++ b/" ≡ false
unfolding has_prefix
sides_differ String.[] h = refl
sides_differ (c ∷ s) h = ground arith

removed_side :
    (line file : String)
    → is_removed_side file line ≡ (has_prefix line "--- a/" && str_eq (text_drop 6 line) file)
unfolding text_length
removed_side line file = str_eq-append line "--- a/" file

added_side :
    (line file : String)
    → is_added_side file line ≡ (has_prefix line "+++ b/" && str_eq (text_drop 6 line) file)
unfolding text_length
added_side line file = str_eq-append line "+++ b/" file

-- One line of a diff adds its side to the mark of a file.
lookup-diff_line :
    (file line : String) (m : Dict ℕ) (r a : Bool)
    → lookup file m ≡ mark r a
    → lookup file (diff_line m line)
      ≡ mark (r || is_removed_side file line) (a || is_added_side file line)
unfolding diff_line
lookup-diff_line file line m r a h = ground (
  arith,
  removed_side line file,
  added_side line file,
  sides_differ line,
  lookup-update_with_or file (text_drop 6 line) 2 m,
  lookup-update_with_or file (text_drop 6 line) 1 m,
)

lookup-diff_lines :
    (file : String) (lines : List String) (m : Dict ℕ) (r a : Bool)
    → lookup file m ≡ mark r a
    → lookup file (diff_lines m lines)
      ≡ mark (r || any (is_removed_side file) lines) (a || any (is_added_side file) lines)
unfolding diff_lines
lookup-diff_lines file [] m r a h = ground arith
lookup-diff_lines file (line ∷ lines) m r a h = ground (
  arith,
  lookup-diff_line file line m r a h,
  lookup-diff_lines file lines (diff_line m line) (r || is_removed_side file line)
      (a || is_added_side file line),
)

-- For every diff text and every file name, the parsed diff holds the file exactly when some scanned
-- line is `--- a/` or `+++ b/` followed by that name, and its value is then removed (2) if only the
-- first was seen, added (1) if only the second was, and modified (3) if both were.
pub parse_diff_marks :
    (diff file : String)
    → lookup file (parse_diff diff)
      ≡ mark
          (any (is_removed_side file) (scan_lines diff))
          (any (is_added_side file) (scan_lines diff))
unfolding parse_diff lookup
parse_diff_marks diff file = lookup-diff_lines file (scan_lines diff) [] false false refl

-- What one entry of a GitLab answer says of a file: a deleted entry removes its old path, a new one
-- adds its new path, and any other modifies its new path, which is both.
abbrev pub entry_removes : String → GitLabDiff → Bool
entry_removes file d =
    if d.deleted_file then str_eq d.old_path file else not d.new_file && str_eq d.new_path file

abbrev pub entry_adds : String → GitLabDiff → Bool
entry_adds file d = not d.deleted_file && str_eq d.new_path file

lookup-gitlab_entry :
    (file : String) (d : GitLabDiff) (m : Dict ℕ) (r a : Bool)
    → lookup file m ≡ mark r a
    → lookup file (gitlab_entry m d) ≡ mark (r || entry_removes file d) (a || entry_adds file d)
unfolding gitlab_entry
lookup-gitlab_entry file d m r a h = ground (
  arith,
  lookup-update_with_or file d.old_path 2 m,
  lookup-update_with_or file d.new_path 1 m,
  lookup-update_with_or file d.new_path 3 m,
)

lookup-gitlab_entries :
    (file : String) (ds : List GitLabDiff) (m : Dict ℕ) (r a : Bool)
    → lookup file m ≡ mark r a
    → lookup file (gitlab_entries m ds)
      ≡ mark (r || any (entry_removes file) ds) (a || any (entry_adds file) ds)
unfolding gitlab_entries
lookup-gitlab_entries file [] m r a h = ground arith
lookup-gitlab_entries file (d ∷ ds) m r a h = ground (
  arith,
  lookup-gitlab_entry file d m r a h,
  lookup-gitlab_entries file ds (gitlab_entry m d) (r || entry_removes file d)
      (a || entry_adds file d),
)

-- The list of a GitLab answer that belongs to the event.
abbrev pub event_diffs : String → GitLabDiffList → List GitLabDiff
event_diffs event_type list =
    if str_eq event_type event_push then list.commit_diff else list.pr_diff

-- For every GitLab answer, event and file name, the parsed diff holds the file exactly when some
-- entry of the event's list (the commits' for a push, else the pull request's) removes, adds or
-- modifies it, and its value joins the bits of all those entries: removed 2, added 1, modified 3.
pub parse_gitlab_diff_marks :
    (event_type : String) (list : GitLabDiffList) (file : String)
    → lookup file (parse_gitlab_diff event_type list)
      ≡ mark
          (any (entry_removes file) (event_diffs event_type list))
          (any (entry_adds file) (event_diffs event_type list))
unfolding parse_gitlab_diff lookup
parse_gitlab_diff_marks event_type list file =
    lookup-gitlab_entries file (event_diffs event_type list) [] false false refl
