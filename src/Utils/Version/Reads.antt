-- ===== src/Utils/Version/Reads.antt =====
-- The version that `GetVersion` reads from a file is the number before the first dot.
use Prim.Native.Char.{Char}
use Prim.Native.String.{[]}
use Prim.Native.String.append
use test_at_scale.Prelude.{
  ℕ, zero, suc, ◌/◌, ◌%◌, ◌<◌, ◌≤◌, String, ◌⧺◌, ◌≡◌, ap, ◌∙◌, arith, ltb, Bool-cases, inl, inr,
}
use test_at_scale.Errs.{Result, ok}
use test_at_scale.Models.{pos}
use test_at_scale.Format.{digit, decimal_from, decimal}
use test_at_scale.Format.RoundTrip.{digit_is_char, decimal_from-append, atoi-decimal}
use test_at_scale.Utils.Version.{before_dot, get_version}

before_dot-digit : (d : ℕ) (s : String) → d < 10 → before_dot (digit d ⧺ s) ≡ digit d ⧺ before_dot s
unfolding before_dot
before_dot-digit d s h =
    let (c, e, v) = digit_is_char d h in
    rw
      (
        e,
        append.cons c [] s,
        append.nil s,
        append.cons c [] (before_dot s),
        append.nil (before_dot s),
      )
      (ground arith)

before_dot-decimal_from :
    (f n : ℕ) (tail : String)
    → n < f
    → before_dot (decimal_from f n tail) ≡ decimal_from f n (before_dot tail)
unfolding decimal_from
before_dot-decimal_from zero n tail h = absurd (omega arith)
before_dot-decimal_from (suc f) n tail h = elim (Bool-cases (ltb n 10)) [
  | inl small ↦ rw small (before_dot-digit n tail (ground arith))
  | inr large ↦ rw large (
      before_dot-decimal_from f (n / 10) (digit (n % 10) ⧺ tail) (ground arith)
      ∙ ap (decimal_from f (n / 10)) (before_dot-digit (n % 10) tail (omega arith)))
]

before_dot-dot : (s : String) → before_dot ("." ⧺ s) ≡ ""
unfolding before_dot
before_dot-dot s = let dot : Char = "." in rw (append.cons dot [] s)

before_dot-decimal :
    (n : ℕ) (rest : String) → before_dot (decimal (pos n) ⧺ ("." ⧺ rest)) ≡ decimal (pos n)
unfolding decimal
before_dot-decimal n rest =
    ap before_dot (decimal_from-append (suc n) n "" ("." ⧺ rest))
    ∙ before_dot-decimal_from (suc n) n ("" ⧺ ("." ⧺ rest)) (omega arith)
    ∙ ap (decimal_from (suc n) n) (ap before_dot (append.nil ("." ⧺ rest)) ∙ before_dot-dot rest)

-- When the version that the yaml decoder finds is a number that fits an int, a dot and any text, the
-- version of the file is that number.
pub get_version-major :
    (read : String → Result String) (text rest : String) (n : ℕ)
    → n ≤ 9223372036854775807
    → read text ≡ ok (decimal (pos n) ⧺ ("." ⧺ rest))
    → get_version read text ≡ ok (pos n)
unfolding get_version
get_version-major read text rest n fits found =
    rw (found, before_dot-decimal n rest, atoi-decimal n fits)
