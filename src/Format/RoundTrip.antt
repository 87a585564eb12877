-- ===== src/Format/RoundTrip.antt =====
-- `Atoi` reads back what `%d` prints.
use Prim.Native.Char.{Char, code}
use Prim.Native.String.{[], ◌∷◌}
use Prim.Native.String.append
use test_at_scale.Prelude.{
  ℕ, zero, suc, ◌+◌, ◌-◌, ◌*◌, ◌/◌, ◌%◌, ◌<◌, ◌≤◌, String, ◌⧺◌, ◌≡◌, refl, sym, ap, ◌∙◌, some,
  append_assoc, arith, ltb, le→leb, Bool-cases, inl, inr,
}
use test_at_scale.Models.{pos}
use test_at_scale.Format.{or_empty, digit_names, digit, decimal_from, decimal, digits_from, atoi}

-- A digit is one character, whose number tells its value.
pub digit_is_char : (d : ℕ) → d < 10 → (c : Char) × (digit d ≡ c ∷ []) × (code c ≡ 48 + d)
unfolding digit or_empty digit_names
digit_is_char zero h = ("0", refl, refl)
digit_is_char (suc zero) h = ("1", refl, refl)
digit_is_char (suc (suc zero)) h = ("2", refl, refl)
digit_is_char (suc (suc (suc zero))) h = ("3", refl, refl)
digit_is_char (suc (suc (suc (suc zero)))) h = ("4", refl, refl)
digit_is_char (suc (suc (suc (suc (suc zero))))) h = ("5", refl, refl)
digit_is_char (suc (suc (suc (suc (suc (suc zero)))))) h = ("6", refl, refl)
digit_is_char (suc (suc (suc (suc (suc (suc (suc zero))))))) h = ("7", refl, refl)
digit_is_char (suc (suc (suc (suc (suc (suc (suc (suc zero)))))))) h = ("8", refl, refl)
digit_is_char (suc (suc (suc (suc (suc (suc (suc (suc (suc zero))))))))) h = ("9", refl, refl)
digit_is_char (suc (suc (suc (suc (suc (suc (suc (suc (suc (suc d)))))))))) h = absurd (omega arith)

digits_from-cons :
    (n : ℕ) (c : Char) (tail : String)
    → 48 ≤ code c
    → code c ≤ 57
    → digits_from n (c ∷ tail) ≡ digits_from (n * 10 + (code c - 48)) tail
unfolding digits_from
digits_from-cons n c tail low high = rw (le→leb _ _ low, le→leb _ _ high)

-- One printed digit, read behind `n`.
digits_from-digit :
    (n d : ℕ) (tail : String)
    → d < 10
    → digits_from n (digit d ⧺ tail) ≡ digits_from (n * 10 + d) tail
digits_from-digit n d tail h =
    let (c, e, v) = digit_is_char d h in
    rw (e, append.cons c [] tail, append.nil tail)
      (digits_from-cons n c tail (omega arith) (omega arith)
        ∙ ap (λ k. digits_from k tail) (omega arith))

-- Reading a printed number, with more text behind it.
digits_from-decimal_from :
    (f n : ℕ) (tail : String) → n < f → digits_from 0 (decimal_from f n tail) ≡ digits_from n tail
unfolding decimal_from
digits_from-decimal_from zero n tail h = absurd (omega arith)
digits_from-decimal_from (suc f) n tail h = elim (Bool-cases (ltb n 10)) [
  | inl small ↦
      rw small
        (digits_from-digit 0 n tail (ground arith) ∙ ap (λ k. digits_from k tail) (omega arith))
  | inr large ↦ rw large (
      digits_from-decimal_from f (n / 10) (digit (n % 10) ⧺ tail) (ground arith)
      ∙ digits_from-digit (n / 10) (n % 10) tail (omega arith)
      ∙ ap (λ k. digits_from k tail) (omega arith))
]

-- A printed number starts with a digit.
first_digit :
    (f n : ℕ) (tail : String)
    → n < f
    → (c : Char) × (s : String) × (decimal_from f n tail ≡ c ∷ s) × (48 ≤ code c)
unfolding decimal_from
first_digit zero n tail h = absurd (omega arith)
first_digit (suc f) n tail h = elim (Bool-cases (ltb n 10)) [
  | inl small ↦
      let (c, e, v) = digit_is_char n (ground arith) in
      (c, tail, rw (small, e, append.cons c [] tail, append.nil tail), omega arith)
  | inr large ↦
      let (c, s, e, v) = first_digit f (n / 10) (digit (n % 10) ⧺ tail) (ground arith) in
      (c, s, rw (large, e), v)
]

-- Reading what was printed gives the number back, for every `int` that is not negative.
pub atoi-decimal : (n : ℕ) → n ≤ 9223372036854775807 → atoi (decimal (pos n)) ≡ some (pos n)
unfolding atoi decimal
atoi-decimal n h =
    let (c, s, e, v) = first_digit (suc n) n "" (omega arith) in
    let read : digits_from 0 (c ∷ s) ≡ some n =
      sym (ap (digits_from 0) e) ∙ digits_from-decimal_from (suc n) n "" (omega arith) in
    rw e (ground (arith, read))

-- A number is printed in front of what follows it.
pub decimal_from-append :
    (f n : ℕ) (tail s : String) → decimal_from f n tail ⧺ s ≡ decimal_from f n (tail ⧺ s)
unfolding decimal_from
decimal_from-append zero n tail s = refl
decimal_from-append (suc f) n tail s = elim (Bool-cases (ltb n 10)) [
  | inl small ↦ rw small (append_assoc (digit n) tail s)
  | inr large ↦ rw large (
      decimal_from-append f (n / 10) (digit (n % 10) ⧺ tail) s
      ∙ ap (decimal_from f (n / 10)) (append_assoc (digit (n % 10)) tail s))
]
