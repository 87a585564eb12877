-- ===== src/Discovery/Selected.antt =====
-- Which files of a diff the discovery of pkg/testdiscoveryservice/testdiscovery.go passes on.
use test_at_scale.Prelude.{
  ℕ, suc, String, ◌≡◌, refl, ◌∙◌, Bool, true, false, not, ◌||◌, ◌&&◌, Option, none, some, List, [],
  ◌∷◌, Dict, lookup, IsUnique, insert-IsUnique, any, arith, str_eq, eq_iff, ◌==◌, Bool-cases,
  has_prefix, inl, inr, ap, length,
}
use test_at_scale.Diff.{parse_diff, scan_lines, diff_line, diff_lines, update_with_or}
use test_at_scale.Diff.Changes.{mark, is_removed_side, is_added_side, parse_diff_marks}
use test_at_scale.Discovery.{diff_args, impact_args, should_impact_all}

-- Whether a list of flags, each with a value, passes a file by `--diff`.
abbrev pub passes : String → List String → Bool
passes file [] = false
passes file (flag ∷ []) = false
passes file (flag ∷ k ∷ args) = (str_eq flag "--diff" && str_eq k file) || passes file args

abbrev is_kept : Option ℕ → Bool
is_kept none = false
is_kept (some v) = not (v == 2)

passes-diff_args :
    (file : String) (diff : Dict ℕ)
    → IsUnique diff
    → passes file (diff_args diff) ≡ is_kept (lookup file diff)
unfolding diff_args lookup
passes-diff_args file [] u = refl
passes-diff_args file ((k, v) ∷ diff) u = elim (Bool-cases (str_eq k file)) [
  | inr other ↦ rw other (ground (arith, passes-diff_args file diff u.1))
  | inl same ↦
      let e : k ≡ file = (eq_iff k file).0 same in
      let absent : lookup file diff ≡ none = rw e at u.0 in
      let later : passes file (diff_args diff) ≡ false =
        passes-diff_args file diff u.1 ∙ ap is_kept absent in
      rw same (ground (arith, later))
]

diff_line-IsUnique : (line : String) (m : Dict ℕ) → IsUnique m → IsUnique (diff_line m line)
unfolding diff_line update_with_or
diff_line-IsUnique line m u = elim (Bool-cases (has_prefix line "--- a/")) [
  | inl removed ↦ rw removed (insert-IsUnique _ _ m u)
  | inr others ↦ elim (Bool-cases (has_prefix line "+++ b/")) [
    | inl added ↦ rw (others, added) (insert-IsUnique _ _ m u)
    | inr neither ↦ rw (others, neither) u
  ]
]

diff_lines-IsUnique :
    (lines : List String) (m : Dict ℕ) → IsUnique m → IsUnique (diff_lines m lines)
unfolding diff_lines
diff_lines-IsUnique [] m u = u
diff_lines-IsUnique (line ∷ lines) m u =
    diff_lines-IsUnique lines (diff_line m line) (diff_line-IsUnique line m u)

parse_diff-IsUnique : (text : String) → IsUnique (parse_diff text)
unfolding parse_diff
parse_diff-IsUnique text = diff_lines-IsUnique (scan_lines text) [] tt

is_kept-mark : (r a : Bool) → is_kept (mark r a) ≡ a
is_kept-mark true true = refl
is_kept-mark true false = refl
is_kept-mark false true = refl
is_kept-mark false false = refl

passes-impact_args :
    (file : String) (exists : Bool) (diff : Dict ℕ)
    → IsUnique diff
    → passes file (impact_args false exists diff) ≡ is_kept (lookup file diff)
unfolding impact_args lookup
passes-impact_args file true [] u = refl
passes-impact_args file false [] u = passes-diff_args file [] u
passes-impact_args file exists (entry ∷ diff) u =
    let filled : (suc (length diff) == 0) ≡ false = ground arith in
    rw filled (passes-diff_args file (entry ∷ diff) u)

-- When not everything is impacted, the arguments that a discovery makes of the whole parsed diff of GitHub
-- or Bitbucket pass a file by `--diff` exactly if the diff has the added side of the file: it was added
-- or modified. A removed file is not passed.
pub passes-parse_diff :
    (smart_run exists : Bool) (config_file_path text file : String)
    → should_impact_all smart_run config_file_path (parse_diff text) ≡ false
    → passes file (
        impact_args
          (should_impact_all smart_run config_file_path (parse_diff text))
          exists
          (parse_diff text))
      ≡ any (is_added_side file) (scan_lines text)
passes-parse_diff smart_run exists config_file_path text file partial = rw partial (
    passes-impact_args file exists (parse_diff text) (parse_diff-IsUnique text)
    ∙ ap is_kept (parse_diff_marks text file)
    ∙ is_kept-mark (any (is_removed_side file) (scan_lines text))
        (any (is_added_side file) (scan_lines text)))
