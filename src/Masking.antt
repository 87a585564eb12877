-- ===== src/Masking.antt =====
-- pkg/logstream/mask.go: the writer that masks the secrets of a repository in the output of commands.
-- Texts are the characters that UTF-8 encodes, and a length in bytes counts their encodings. The
-- order of the secrets is the one in which Go visits the map. `replace` is `Replacer.Replace` for old
-- texts that are not empty: at each place the first of the pairs that fits, and else the character.
pub mod Hidden
pub mod Tests
use Prim.Native.Char.{Char, code}
use Prim.Native.String.{[], ◌∷◌}
use mathlib.Core.List.{[], ◌∷◌}
use test_at_scale.Prelude.{
  ℕ, zero, suc, ◌+◌, ◌-◌, String, ◌⧺◌, Bool, ◌||◌, ◌&&◌, Option, none, some, List, ◌++◌, Dict, leb,
  ltb, ◌==◌, has_prefix, onto_first, text_length, str_eq, if◌then◌else◌, length,
}
use test_at_scale.Errs.{Err}

abbrev pub masked_str : String
masked_str = "****************"

abbrev pub char_bytes : ℕ → ℕ
char_bytes c = if ltb c 128 then 1 else if ltb c 2048 then 2 else if ltb c 65536 then 3 else 4

unfoldable pub byte_length : String → ℕ
byte_length [] = 0
byte_length (c ∷ s) = char_bytes (code c) + byte_length s

-- `unicode.IsSpace`
abbrev pub is_space : ℕ → Bool
is_space c =
    leb 9 c && leb c 13
    || c == 32
    || c == 133
    || c == 160
    || c == 5760
    || leb 8192 c && leb c 8202
    || c == 8232
    || c == 8233
    || c == 8239
    || c == 8287
    || c == 12288

unfoldable pub trim_left : String → String
trim_left [] = []
trim_left (c ∷ s) = let rest = trim_left s in if is_space (code c) then rest else c ∷ s

abbrev add_unless_blank : Char → String → String
add_unless_blank c [] = if is_space (code c) then [] else c ∷ []
add_unless_blank c (d ∷ s) = c ∷ (d ∷ s)

unfoldable pub trim_right : String → String
trim_right [] = []
trim_right (c ∷ s) = add_unless_blank c (trim_right s)

-- `strings.TrimSpace`
unfoldable pub trim_space : String → String
unfolding trim_left trim_right
trim_space s = trim_right (trim_left s)

-- `strings.Split(s, "\n")`
unfoldable pub split_lines : String → List String
split_lines [] = "" ∷ []
split_lines (c ∷ s) =
    let rest = split_lines s in if code c == 10 then "" ∷ rest else onto_first c rest

-- The loop over the lines of a secret, and over the secrets.
unfoldable pub pairs_of : List String → List (String × String)
unfolding trim_space byte_length
pairs_of [] = []
pairs_of (part ∷ parts) =
    let rest = pairs_of parts in
    if ltb (byte_length (trim_space part)) 2 then rest else (trim_space part, masked_str) ∷ rest

unfoldable pub old_new : Dict String → List (String × String)
unfolding split_lines pairs_of
old_new [] = []
old_new (entry ∷ secrets) =
    let rest = old_new secrets in
    if str_eq entry.1 "" then rest else pairs_of (split_lines entry.1) ++ rest

unfoldable pub first_match : List (String × String) → String → Option (String × String)
first_match [] s = none
first_match (pair ∷ pairs) s =
    let rest = first_match pairs s in if has_prefix s pair.0 then some pair else rest

-- A character, or the new text of the pair that fits there.
abbrev pub shown_as : Char → (ℕ → String) → Option (String × String) → String
shown_as c rest none = c ∷ rest 0
shown_as c rest (some pair) = pair.1 ⧺ rest (text_length pair.0 - 1)

-- The rest of a text, of which the first characters are replaced already.
unfoldable pub replace_from : List (String × String) → ℕ → String → String
unfolding first_match
replace_from pairs n [] = []
replace_from pairs (suc n) (c ∷ s) = replace_from pairs n s
replace_from pairs zero (c ∷ s) =
    shown_as c (λ n. replace_from pairs n s) (first_match pairs (c ∷ s))

unfoldable pub replace : List (String × String) → String → String
replace pairs s = replace_from pairs 0 s

-- The writer of `NewMasker` over another, which is that one itself where there is nothing to mask.
abbrev pub write_masked :
    (String → ℕ × Option Err) → List (String × String) → String → ℕ × Option Err
write_masked base [] text = base text
write_masked base (pair ∷ pairs) text = (byte_length text, (base (replace (pair ∷ pairs) text)).1)

unfoldable pub masker_write : (String → ℕ × Option Err) → Dict String → String → ℕ × Option Err
unfolding old_new replace byte_length
masker_write base secrets text = write_masked base (old_new secrets) text
