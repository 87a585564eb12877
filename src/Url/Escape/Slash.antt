-- ===== src/Url/Escape/Slash.antt =====
-- What the escapes leave out: no slash comes through, so an escaped path is one segment of a URL.
use Prim.Native.Char.{Char, code}
use Prim.Native.String.{[], ◌∷◌}
use Prim.Native.String.append
use mathlib.Core.List.{List, [], ◌∷◌}
use test_at_scale.Prelude.{
  ℕ, zero, suc, ◌/◌, ◌%◌, String, Bool, false, ◌||◌, ◌≡◌, refl, arith, ◌==◌, get_elem?, All, ◌⧺◌,
  Bool-cases, inl, inr,
}
use test_at_scale.Format.{or_empty, digit_names, digit}
use test_at_scale.Url.Escape.{
  utf8, escape_bytes, query_char, path_char, escape_with, query_escape, path_escape,
}

-- The text holds the character of the number.
unfoldable pub has_char : ℕ → String → Bool
has_char n [] = false
has_char n (c ∷ s) = code c == n || has_char n s

abbrev pub IsSegment : String → Type 0
IsSegment s = has_char b'/' s ≡ false

has_char-append : (n : ℕ) (s t : String) → has_char n (s ⧺ t) ≡ (has_char n s || has_char n t)
unfolding has_char
has_char-append n [] t = rw append.nil
has_char-append n (c ∷ s) t = rw (append.cons c s t) (ground (arith, has_char-append n s t))

append-IsSegment : (s t : String) → IsSegment s → IsSegment t → IsSegment (s ⧺ t)
append-IsSegment s t p q = rw (has_char-append, p) q

or_empty-IsSegment :
    (l : List String) (d : ℕ) → All IsSegment l → IsSegment (or_empty (get_elem? l d))
unfolding or_empty has_char
or_empty-IsSegment [] d h = refl
or_empty-IsSegment (s ∷ l) zero h = h.0
or_empty-IsSegment (s ∷ l) (suc d) h = or_empty-IsSegment l d h.1

digit-IsSegment : (d : ℕ) → IsSegment (digit d)
unfolding digit has_char
digit-IsSegment d = or_empty-IsSegment digit_names d (ground arith)

percent-IsSegment : IsSegment "%"
unfolding has_char
percent-IsSegment = refl

plus-IsSegment : IsSegment "+"
unfolding has_char
plus-IsSegment = refl

escape_bytes-IsSegment : (bs : List ℕ) → IsSegment (escape_bytes bs)
unfolding escape_bytes has_char
escape_bytes-IsSegment [] = refl
escape_bytes-IsSegment (b ∷ bs) =
    let low = digit (b % 16) ⧺ escape_bytes bs in
    append-IsSegment "%" (digit (b / 16) ⧺ low) percent-IsSegment (
      append-IsSegment (digit (b / 16)) low (digit-IsSegment (b / 16)) (
        append-IsSegment (digit (b % 16)) (escape_bytes bs) (digit-IsSegment (b % 16))
          (escape_bytes-IsSegment bs)))

one-IsSegment : (c : Char) → (code c == b'/') ≡ false → IsSegment (c ∷ [])
unfolding has_char
one-IsSegment c h = rw h

query_char-IsSegment : (c : Char) → IsSegment (query_char c)
unfolding query_char has_char
query_char-IsSegment c = elim (Bool-cases (code c == b' ')) [
  | inl blank ↦ rw blank plus-IsSegment
  | inr other ↦ rw other (ground (arith, one-IsSegment c, escape_bytes-IsSegment (utf8 (code c))))
]

path_char-IsSegment : (c : Char) → IsSegment (path_char c)
unfolding path_char has_char
path_char-IsSegment c = ground (arith, one-IsSegment c, escape_bytes-IsSegment (utf8 (code c)))

escape_with-IsSegment :
    (f : Char → String)
    → ((c : Char) → IsSegment (f c))
    → (s : String) → IsSegment (escape_with f s)
unfolding escape_with has_char
escape_with-IsSegment f h [] = refl
escape_with-IsSegment f h (c ∷ s) =
    append-IsSegment (f c) (escape_with f s) (h c) (escape_with-IsSegment f h s)

pub query_escape-IsSegment : (s : String) → IsSegment (query_escape s)
unfolding query_escape
query_escape-IsSegment = escape_with-IsSegment query_char query_char-IsSegment

pub path_escape-IsSegment : (s : String) → IsSegment (path_escape s)
unfolding path_escape
path_escape-IsSegment = escape_with-IsSegment path_char path_char-IsSegment
