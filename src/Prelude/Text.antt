-- ===== src/Prelude/Text.antt =====
-- Go's `strings` on native texts: prefixes, suffixes, concatenation. A position counts characters,
-- which are bytes for the ASCII texts that the program cuts by number.
use Prim.Native.Nat.{ℕ, zero, suc}
use Prim.Native.Char.{Char, code}
use Prim.Native.String
use Prim.Native.String.{String, [], ◌∷◌}
use Prim.Native.String.append
use Prim.Native.String.compare
use mathlib.Core.List.{List, [], ◌∷◌}
use mathlib.Core.Path.{◌≡◌, refl}
use mathlib.Core.Bool.{Bool, true, false, ◌&&◌, ◌||◌}
use native.Mathlib.Omega.{arith}
use text.Mathlib.Text.{◌==◌ as str_eq}
use text.Mathlib.TextEquality.{eq_iff}
use test_at_scale.Prelude.Tests.{◌==◌, if◌then◌else◌, ==_iff}

-- The concatenation of two texts, as Go's `+`.
infixr 66 ◌⧺◌
abbrev pub ◌⧺◌ : String → String → String
s ⧺ t = String.◌++◌ s t

abbrev pub same_char : Char → Char → Bool
same_char c d = code c == code d

-- `strings.HasPrefix`.
unfoldable pub has_prefix : String → String → Bool
has_prefix s [] = true
has_prefix [] (d ∷ p) = false
has_prefix (c ∷ s) (d ∷ p) = same_char c d && has_prefix s p

-- `s[n:]` on a text of at least `n` characters.
unfoldable pub text_drop : ℕ → String → String
text_drop zero s = s
text_drop (suc n) [] = []
text_drop (suc n) (c ∷ s) = text_drop n s

unfoldable pub text_length : String → ℕ
text_length [] = 0
text_length (c ∷ s) = suc (text_length s)

-- `strings.TrimPrefix`.
unfoldable pub trim_prefix : String → String → String
trim_prefix s p = if has_prefix s p then text_drop (text_length p) s else s

-- `strings.HasSuffix`: the text itself, or what follows one of its characters, is the suffix.
unfoldable pub has_suffix : String → String → Bool
has_suffix [] t = str_eq [] t
has_suffix (c ∷ s) t = str_eq (c ∷ s) t || has_suffix s t

-- `strings.TrimSuffix`
unfoldable pub trim_suffix : String → String → String
trim_suffix [] t = []
trim_suffix (c ∷ s) t = let rest = trim_suffix s t in if str_eq (c ∷ s) t then [] else c ∷ rest

same_char_refl : (c : Char) → same_char c c ≡ true
same_char_refl c = (==_iff (code c) (code c)).1 refl

pub has_prefix-append : (p s : String) → has_prefix (p ⧺ s) p ≡ true
unfolding has_prefix
has_prefix-append [] s = refl
has_prefix-append (c ∷ p) s = rw (append.cons c p s, same_char_refl c) (has_prefix-append p s)

pub text_drop-append : (p s : String) → text_drop (text_length p) (p ⧺ s) ≡ s
unfolding text_drop text_length
text_drop-append [] s = append.nil s
text_drop-append (c ∷ p) s = rw (append.cons c p s) (text_drop-append p s)

pub trim_prefix-append : (p s : String) → trim_prefix (p ⧺ s) p ≡ s
unfolding trim_prefix
trim_prefix-append p s = rw (has_prefix-append p s) (text_drop-append p s)

str_eq-cons : (c d : Char) (s t : String) → str_eq (c ∷ s) (d ∷ t) ≡ (same_char c d && str_eq s t)
str_eq-cons c d s t = rw (compare.cons-cons c d s t) (ground arith)

-- A text is a prefix and a rest exactly when it begins with the prefix and the rest follows.
pub str_eq-append :
    (s p r : String) → str_eq s (p ⧺ r) ≡ (has_prefix s p && str_eq (text_drop (text_length p) s) r)
unfolding has_prefix text_drop text_length
str_eq-append s [] r = rw (append.nil r)
str_eq-append [] (d ∷ p) r = rw (append.cons d p r) (rw (compare.nil-cons d (p ⧺ r)))
str_eq-append (c ∷ s) (d ∷ p) r =
    rw (append.cons d p r, str_eq-cons c d s (p ⧺ r)) (ground (arith, str_eq-append s p r))

pub append_assoc : (s t u : String) → (s ⧺ t) ⧺ u ≡ s ⧺ (t ⧺ u)
append_assoc [] t u = rw (append.nil t, append.nil (t ⧺ u))
append_assoc (c ∷ s) t u =
    rw (append.cons c s t, append.cons c (s ⧺ t) u, append.cons c s (t ⧺ u), append_assoc s t u)

-- A text with a prefix is the prefix and what follows it.
pub has_prefix-split : (s p : String) → has_prefix s p ≡ true → s ≡ p ⧺ text_drop (text_length p) s
has_prefix-split s p h =
    let rest = text_drop (text_length p) s in
    (eq_iff s (p ⧺ rest)).0 (rw (str_eq-append s p rest, h) ((eq_iff rest rest).1 refl))

pub has_prefix_refl : (s : String) → has_prefix s s ≡ true
unfolding has_prefix
has_prefix_refl [] = refl
has_prefix_refl (c ∷ s) = rw (same_char_refl c) (has_prefix_refl s)

has_suffix_refl : (t : String) → has_suffix t t ≡ true
unfolding has_suffix
has_suffix_refl [] = refl
has_suffix_refl (c ∷ t) = rw ((eq_iff (c ∷ t) (c ∷ t)).1 refl)

pub has_suffix-append : (s t : String) → has_suffix (s ⧺ t) t ≡ true
unfolding has_suffix
has_suffix-append [] t = rw (append.nil t) (has_suffix_refl t)
has_suffix-append (c ∷ s) t = rw (append.cons c s t) (ground (arith, has_suffix-append s t))

-- A character before the first of some lines.
abbrev pub onto_first : Char → List String → List String
onto_first c [] = (c ∷ []) ∷ []
onto_first c (line ∷ lines) = (c ∷ line) ∷ lines
