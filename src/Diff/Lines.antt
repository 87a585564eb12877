-- ===== src/Diff/Lines.antt =====
-- The lines that a `bufio.Scanner` gives: split at line feeds, one carriage return at the end of a
-- line left out, an unfinished last line counted if it is not empty. The scanner holds 65536 bytes,
-- and stops for good at a line that does not fit with its line feed.
use Prim.Native.Char.{code}
use Prim.Native.String.{[], ◌∷◌, len}
use mathlib.Core.List.{List, [], ◌∷◌}
use test_at_scale.Prelude.{ℕ, String, onto_first, ltb, ◌==◌, if◌then◌else◌, map}

split_lines : String → List String
split_lines [] = []
split_lines (c ∷ s) =
    let rest = split_lines s in if code c == 10 then "" ∷ rest else onto_first c rest

drop_return : String → String
drop_return [] = []
drop_return (c ∷ []) = if code c == 13 then [] else c ∷ []
drop_return (c ∷ (d ∷ s)) = c ∷ drop_return (d ∷ s)

abbrev max_token_size : ℕ
max_token_size = 65536

until_too_long : List String → List String
until_too_long [] = []
until_too_long (line ∷ lines) =
    let rest = until_too_long lines in if ltb (len line) max_token_size then line ∷ rest else []

unfoldable pub scan_lines : String → List String
unfolding split_lines drop_return until_too_long
scan_lines text = map drop_return (until_too_long (split_lines text))
