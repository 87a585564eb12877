-- ===== src/Url/Escape.antt =====
-- The parts of net/url and fmt that pkg/urlmanager uses: `url.QueryEscape`, `url.PathEscape`,
-- and `strings.Replace` with no limit.
pub mod Slash
use Prim.Native.Char.{Char, code}
use Prim.Native.String.{[], ◌∷◌}
use mathlib.Core.List.{List, [], ◌∷◌}
use test_at_scale.Prelude.{
  ℕ, zero, suc, ◌+◌, ◌-◌, ◌/◌, ◌%◌, String, Bool, true, false, ◌&&◌, ◌||◌, ltb, leb, ◌==◌,
  if◌then◌else◌, get_elem?, Option, none, some, has_prefix, text_length, str_eq, ◌⧺◌,
}
use test_at_scale.Format.{digit}

-- The bytes of a code point in UTF-8.
utf8 : ℕ → List ℕ
utf8 n =
    if ltb n 128
    then n ∷ []
    else if ltb n 2048
    then (192 + n / 64) ∷ (128 + n % 64) ∷ []
    else if ltb n 65536
    then (224 + n / 4096) ∷ (128 + n / 64 % 64) ∷ (128 + n % 64) ∷ []
    else (240 + n / 262144) ∷ (128 + n / 4096 % 64) ∷ (128 + n / 64 % 64) ∷ (128 + n % 64) ∷ []

escape_bytes : List ℕ → String
escape_bytes [] = ""
escape_bytes (b ∷ bs) = "%" ⧺ digit (b / 16) ⧺ digit (b % 16) ⧺ escape_bytes bs

is_unreserved : ℕ → Bool
is_unreserved c =
    leb 97 c && leb c 122
    || leb 65 c && leb c 90
    || leb 48 c && leb c 57
    || c == b'-'
    || c == b'_'
    || c == b'.'
    || c == b'~'

-- What a path segment keeps beside the unreserved characters.
is_kept_in_path : ℕ → Bool
is_kept_in_path c = c == b'$' || c == b'&' || c == b'+' || c == b'=' || c == b':' || c == b'@'

query_char : Char → String
unfolding is_unreserved utf8
query_char c =
    if code c == b' '
    then "+"
    else if is_unreserved (code c)
    then c ∷ []
    else escape_bytes (utf8 (code c))

path_char : Char → String
unfolding is_unreserved is_kept_in_path utf8
path_char c =
    if is_unreserved (code c) || is_kept_in_path (code c)
    then c ∷ []
    else escape_bytes (utf8 (code c))

escape_with : (Char → String) → String → String
escape_with f [] = ""
escape_with f (c ∷ s) = f c ⧺ escape_with f s

unfoldable pub query_escape : String → String
unfolding escape_with query_char escape_bytes
query_escape = escape_with query_char

unfoldable pub path_escape : String → String
unfolding escape_with path_char escape_bytes
path_escape = escape_with path_char

-- What `strings.Replace` does with an empty old text: the new one before every character and at the
-- end.
interleave : String → String → String
interleave new [] = new
interleave new (c ∷ s) = new ⧺ (c ∷ interleave new s)

-- `skip` characters of a found occurrence are still to be passed over.
replace_from : String → String → ℕ → String → String
replace_from old new skip [] = ""
replace_from old new zero (c ∷ s) =
    let found = new ⧺ replace_from old new (text_length old - 1) s in
    let passed : String = c ∷ replace_from old new zero s in
    if has_prefix (c ∷ s) old then found else passed
replace_from old new (suc skip) (c ∷ s) = replace_from old new skip s

-- `strings.Replace(s, old, new, -1)` and `strings.ReplaceAll`
unfoldable pub replace_all : String → String → String → String
unfolding interleave replace_from has_prefix text_length
replace_all s old new = if str_eq old "" then interleave new s else replace_from old new zero s
