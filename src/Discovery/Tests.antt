-- ===== src/Discovery/Tests.antt =====
-- A diff that adds one file and removes another.
use test_at_scale.Prelude.{
  String, ◌≡◌, refl, true, false, any, has_suffix, has_prefix, text_drop, insert, lookup,
}
use test_at_scale.Diff.{parse_diff, scan_lines, diff_line, diff_lines, update_with_or}
use test_at_scale.Diff.Changes.{is_added_side}
use test_at_scale.Discovery.{impact_args, should_impact_all}
use test_at_scale.Discovery.Selected.{passes, passes-parse_diff}

abbrev sample : String
sample = "--- a/old\n+++ /dev/null\n--- /dev/null\n+++ b/new"

partial : should_impact_all true ".tas.yml" (parse_diff sample) ≡ false
unfolding should_impact_all parse_diff diff_lines diff_line update_with_or scan_lines has_prefix
    has_suffix text_drop insert lookup
partial = refl

passes-parse_diff_example :
    passes "new"
      (impact_args (should_impact_all true ".tas.yml" (parse_diff sample)) true (parse_diff sample))
    ≡ any (is_added_side "new") (scan_lines sample)
passes-parse_diff_example = passes-parse_diff true true ".tas.yml" sample "new" partial
