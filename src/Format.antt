-- ===== src/Format.antt =====
-- The parts of fmt and strconv that the program uses: the digits of a number, `%d` and `Itoa`, and
-- `Atoi` into a 64 bit `int`.
pub mod RoundTrip
use Prim.Native.Char.{code}
use Prim.Native.String.{[], ◌∷◌}
use mathlib.Core.List.{List, [], ◌∷◌}
use test_at_scale.Prelude.{
  ℕ, zero, suc, ◌+◌, ◌-◌, ◌*◌, ◌/◌, ◌%◌, ◌^◌, String, ◌⧺◌, ◌&&◌, Option, none, some, leb, ltb, ◌==◌,
  get_elem?, if◌then◌else◌,
}
use test_at_scale.Models.{ℤ, pos, negsuc}

unfoldable pub or_empty : Option String → String
or_empty none = ""
or_empty (some s) = s

unfoldable pub digit_names : List String
digit_names =
    "0" ∷ "1" ∷ "2" ∷ "3" ∷ "4" ∷ "5" ∷ "6" ∷ "7" ∷ "8" ∷ "9" ∷ "A" ∷ "B" ∷ "C" ∷ "D" ∷ "E" ∷ "F"
    ∷ []

unfoldable pub digit : ℕ → String
unfolding or_empty digit_names
digit d = or_empty (get_elem? digit_names d)

-- The digits of `n`, most significant first, in front of `tail`; the fuel is above the number.
unfoldable pub decimal_from : ℕ → ℕ → String → String
decimal_from zero n tail = tail
decimal_from (suc f) n tail =
    let more = decimal_from f (n / 10) (digit (n % 10) ⧺ tail) in
    if ltb n 10 then digit n ⧺ tail else more

unfoldable pub decimal : ℤ → String
unfolding decimal_from digit
decimal (pos n) = decimal_from (suc n) n ""
decimal (negsuc n) = "-" ⧺ decimal_from (suc (suc n)) (suc n) ""

-- The number that digits write behind the number `n`.
unfoldable pub digits_from : ℕ → String → Option ℕ
digits_from n [] = some n
digits_from n (c ∷ s) =
    let rest = digits_from (n * 10 + (code c - b'0')) s in
    if leb b'0' (code c) && leb (code c) b'9' then rest else none

-- At least one digit.
unfoldable pub digits : String → Option ℕ
digits [] = none
digits (c ∷ s) = digits_from 0 (c ∷ s)

-- The range of `int`, 64 bits.
abbrev max_int : ℕ
max_int = 2 ^ 63 - 1

abbrev as_pos : Option ℕ → Option ℤ
as_pos none = none
as_pos (some n) = if ltb max_int n then none else some (pos n)

abbrev as_neg : Option ℕ → Option ℤ
as_neg none = none
as_neg (some n) =
    if n == 0 then some (pos 0) else if ltb (max_int + 1) n then none else some (negsuc (n - 1))

-- `strconv.Atoi`
unfoldable pub atoi : String → Option ℤ
unfolding digits digits_from
atoi [] = none
atoi (c ∷ s) =
    if code c == b'-'
    then as_neg (digits s)
    else if code c == b'+'
    then as_pos (digits s)
    else as_pos (digits (c ∷ s))
