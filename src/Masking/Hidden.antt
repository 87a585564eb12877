-- ===== src/Masking/Hidden.antt =====
-- What the masking of pkg/logstream/mask.go leaves of a text.
use Prim.Native.Char.{Char}
use Prim.Native.String.{[], ◌∷◌}
use mathlib.Core.List.{[], ◌∷◌}
use test_at_scale.Prelude.{
  ℕ, zero, suc, ◌-◌, ◌≤◌, String, ◌⧺◌, ◌≡◌, ◌⊎◌, refl, sym, ap, ◌∙◌, subst, true, false, Option,
  none, some, List, ◌++◌, Dict, ltb, has_prefix, has_prefix-split, text_length, text_drop, All,
  All-mono, eq_iff, arith, Bool-cases, inl, inr, str_eq,
}
use test_at_scale.Errs.{Err}
use test_at_scale.Masking.{
  masked_str, byte_length, trim_space, split_lines, pairs_of, old_new, first_match, replace_from,
  replace, masker_write, write_masked, shown_as,
}

-- A pair stands in a list.
abbrev pub Holds : String × String → List (String × String) → Type 0
Holds pair [] = ⊥
Holds pair (other ∷ pairs) = (other ≡ pair) ⊎ Holds pair pairs

-- A text and what is shown of it: a character is shown only where none of the old texts begins, and
-- anything else is an old text in whose place its new text is shown.
pub data Shows (pairs : List (String × String)) : String → String → Type 0 where
  ends : Shows pairs "" ""
  shown :
      {s out : String} (c : Char)
      → All (λ pair. has_prefix (c ∷ s) pair.0 ≡ false) pairs
      → Shows pairs s out
      → Shows pairs (c ∷ s) (c ∷ out)
  hidden :
      {s out : String} (pair : String × String)
      → Holds pair pairs
      → Shows pairs s out
      → Shows pairs (pair.0 ⧺ s) (pair.1 ⧺ out)

clash : {pair : String × String} → ◌≡◌ {A = Option (String × String)} (some pair) none → ⊥
clash e = cc

first_match-none :
    (pairs : List (String × String)) (s : String)
    → first_match pairs s ≡ none
    → All (λ pair. has_prefix s pair.0 ≡ false) pairs
unfolding first_match
first_match-none [] s h = tt
first_match-none (pair ∷ pairs) s h = elim (Bool-cases (has_prefix s pair.0)) [
  | inl fits ↦ absurd (clash (rw fits at h))
  | inr other ↦ (other, first_match-none pairs s (rw other at h))
]

some_inj : {p q : String × String} → ◌≡◌ {A = Option (String × String)} (some p) (some q) → p ≡ q
some_inj e = cc

first_match-some :
    (pairs : List (String × String)) (s : String) (pair : String × String)
    → first_match pairs s ≡ some pair
    → Holds pair pairs × (has_prefix s pair.0 ≡ true)
unfolding first_match
first_match-some [] s pair h = cc
first_match-some (other ∷ pairs) s pair h = elim (Bool-cases (has_prefix s other.0)) [
  | inl fits ↦
      let same : other ≡ pair = some_inj (rw fits at h) in
      (inl same, subst (λ p. has_prefix s p.0 ≡ true) same fits)
  | inr differs ↦
      let (held, fits) = first_match-some pairs s pair (rw differs at h) in (inr held, fits)
]

-- The old texts are never empty, since they have two bytes.
abbrev pub IsPair : String × String → Type 0
IsPair pair = (2 ≤ byte_length pair.0) × (pair.1 ≡ masked_str)

pairs_of-IsPair : (parts : List String) → All IsPair (pairs_of parts)
unfolding pairs_of
pairs_of-IsPair [] = tt
pairs_of-IsPair (part ∷ parts) = elim (Bool-cases (ltb (byte_length (trim_space part)) 2)) [
  | inl short ↦ rw short (pairs_of-IsPair parts)
  | inr long ↦ rw long ((ground (arith, long), refl), pairs_of-IsPair parts)
]

All-append {ℓ κ} :
    {A : Type ℓ} (P : A → Type κ) (xs ys : List A) → All P xs → All P ys → All P (xs ++ ys)
All-append P [] ys p q = q
All-append P (x ∷ xs) ys p q = (p.0, All-append P xs ys p.1 q)

old_new-IsPair : (secrets : Dict String) → All IsPair (old_new secrets)
unfolding old_new
old_new-IsPair [] = tt
old_new-IsPair (entry ∷ secrets) = elim (Bool-cases (str_eq entry.1 "")) [
  | inl none_given ↦ rw none_given (old_new-IsPair secrets)
  | inr given ↦ rw given (
      All-append IsPair (pairs_of (split_lines entry.1)) (old_new secrets)
        (pairs_of-IsPair (split_lines entry.1)) (old_new-IsPair secrets))
]

All-Holds :
    (P : String × String → Type 0) (pairs : List (String × String)) (pair : String × String)
    → All P pairs
    → Holds pair pairs
    → P pair
All-Holds P [] pair all h = absurd h
All-Holds P (other ∷ pairs) pair all (inl same) = subst P same all.0
All-Holds P (other ∷ pairs) pair all (inr h) = All-Holds P pairs pair all.1 h

-- A text of two bytes that another begins with leaves of it what follows.
rest_of :
    (c : Char) (s old : String)
    → 2 ≤ byte_length old
    → has_prefix (c ∷ s) old ≡ true
    → old ⧺ text_drop (text_length old - 1) s ≡ c ∷ s
unfolding byte_length text_length text_drop
rest_of c s [] long fits = absurd (omega (arith, long))
rest_of c s (d ∷ old) long fits =
    ap (λ n. (d ∷ old) ⧺ text_drop n s) (omega arith)
    ∙ sym (has_prefix-split (c ∷ s) (d ∷ old) fits)

shown_as-Shows :
    (pairs : List (String × String)) (c : Char) (s : String) (o : Option (String × String))
    → All IsPair pairs
    → first_match pairs (c ∷ s) ≡ o
    → ((n : ℕ) → Shows pairs (text_drop n s) (replace_from pairs n s))
    → Shows pairs (c ∷ s) (shown_as c (λ n. replace_from pairs n s) o)
unfolding text_drop
shown_as-Shows pairs c s none all matched rest =
    shown c (first_match-none pairs (c ∷ s) matched) (rest 0)
shown_as-Shows pairs c s (some pair) all matched rest =
    let (held, fits) = first_match-some pairs (c ∷ s) pair matched in
    let long = (All-Holds IsPair pairs pair all held).0 in
    subst (λ text. Shows pairs text (pair.1 ⧺ replace_from pairs (text_length pair.0 - 1) s))
      (rest_of c s pair.0 long fits) (hidden pair held (rest (text_length pair.0 - 1)))

replace_from-Shows :
    (pairs : List (String × String)) (n : ℕ) (s : String)
    → All IsPair pairs
    → Shows pairs (text_drop n s) (replace_from pairs n s)
unfolding replace_from text_drop
replace_from-Shows pairs zero [] all = ends
replace_from-Shows pairs (suc n) [] all = ends
replace_from-Shows pairs (suc n) (c ∷ s) all = replace_from-Shows pairs n s all
replace_from-Shows pairs zero (c ∷ s) all =
    shown_as-Shows pairs c s (first_match pairs (c ∷ s)) all refl
      (λ n. replace_from-Shows pairs n s all)

nothing_to_mask : (text : String) → Shows [] text text
nothing_to_mask [] = ends
nothing_to_mask (c ∷ text) = shown c tt (nothing_to_mask text)

write_masked-Shows :
    (base : String → ℕ × Option Err) (pairs : List (String × String)) (text : String)
    → All IsPair pairs
    → (out : String) × Shows pairs text out × ((write_masked base pairs text).1 ≡ (base out).1)
unfolding replace text_drop
write_masked-Shows base [] text all = (text, nothing_to_mask text, refl)
write_masked-Shows base (pair ∷ pairs) text all =
    (replace (pair ∷ pairs) text, replace_from-Shows (pair ∷ pairs) 0 text all, refl)

-- Every part of two bytes or more, without its blanks, is among the pairs.
abbrev AreHeld : List (String × String) → List String → Type 0
AreHeld pairs parts =
    All (λ part. 2 ≤ byte_length (trim_space part) → Holds (trim_space part, masked_str) pairs)
      parts

Holds-append_left :
    (pair : String × String) (xs ys : List (String × String))
    → Holds pair xs
    → Holds pair (xs ++ ys)
Holds-append_left pair [] ys h = absurd h
Holds-append_left pair (x ∷ xs) ys (inl same) = inl same
Holds-append_left pair (x ∷ xs) ys (inr h) = inr (Holds-append_left pair xs ys h)

Holds-append_right :
    (pair : String × String) (xs ys : List (String × String))
    → Holds pair ys
    → Holds pair (xs ++ ys)
Holds-append_right pair [] ys h = h
Holds-append_right pair (x ∷ xs) ys h = inr (Holds-append_right pair xs ys h)

pairs_of-AreHeld : (parts : List String) → AreHeld (pairs_of parts) parts
unfolding pairs_of
pairs_of-AreHeld [] = tt
pairs_of-AreHeld (part ∷ parts) = elim (Bool-cases (ltb (byte_length (trim_space part)) 2)) [
  | inl short ↦
      let same : pairs_of (part ∷ parts) ≡ pairs_of parts = rw short refl in
      subst (λ pairs. AreHeld pairs (part ∷ parts)) (sym same)
        ((λ long. absurd (ground (arith, short, long))), pairs_of-AreHeld parts)
  | inr given ↦
      let same : pairs_of (part ∷ parts) ≡ (trim_space part, masked_str) ∷ pairs_of parts =
        rw given refl in
      subst (λ pairs. AreHeld pairs (part ∷ parts)) (sym same)
        (
          (λ long. inl refl),
          All-mono parts (λ x held long. inr (held long)) (pairs_of-AreHeld parts),
        )
]

-- Each line of two bytes or more of each secret, without its blanks, is to be masked.
abbrev pub AreMasked : List (String × String) → Dict String → Type 0
AreMasked pairs secrets =
    All
      (λ entry.
        All (λ part. 2 ≤ byte_length (trim_space part) → Holds (trim_space part, masked_str) pairs)
          (split_lines entry.1))
      secrets

no_lines :
    (pairs : List (String × String)) (value : String)
    → value ≡ ""
    → AreHeld pairs (split_lines value)
unfolding split_lines trim_space byte_length
no_lines pairs value e = rw e ((λ long. absurd (omega (arith, long))), tt)

old_new-AreMasked : (secrets : Dict String) → AreMasked (old_new secrets) secrets
unfolding old_new
old_new-AreMasked [] = tt
old_new-AreMasked (entry ∷ secrets) = elim (Bool-cases (str_eq entry.1 "")) [
  | inl none_given ↦
      let same : old_new (entry ∷ secrets) ≡ old_new secrets = rw none_given refl in
      subst (λ pairs. AreMasked pairs (entry ∷ secrets)) (sym same)
        (
          no_lines (old_new secrets) entry.1 ((eq_iff entry.1 "").0 none_given),
          old_new-AreMasked secrets,
        )
  | inr given ↦
      let same : old_new (entry ∷ secrets) ≡ pairs_of (split_lines entry.1) ++ old_new secrets =
        rw given refl in
      subst (λ pairs. AreMasked pairs (entry ∷ secrets)) (sym same)
        (
          All-mono (split_lines entry.1)
              (λ x held long.
                Holds-append_left _ (pairs_of (split_lines entry.1)) (old_new secrets) (held long))
              (pairs_of-AreHeld (split_lines entry.1)),
          All-mono secrets
              (λ e all.
                All-mono (split_lines e.1)
                  (λ x held long.
                    Holds-append_right _ (pairs_of (split_lines entry.1)) (old_new secrets)
                      (held long))
                  all)
              (old_new-AreMasked secrets),
        )
]

-- Whatever the secrets of a repository are, the writer below the masker is given the text with some
-- pieces replaced, each of them a line of a secret of two bytes or more without the blanks around it,
-- and all of them by the mask: every such line is looked for, and none begins at any character that is
-- still shown. The error
-- of the masker is that of the writer below it.
pub masker_write-Shows :
    (base : String → ℕ × Option Err) (secrets : Dict String) (text : String)
    → (out : String) × Shows (old_new secrets) text out
      × ((masker_write base secrets text).1 ≡ (base out).1)
      × All IsPair (old_new secrets)
      × AreMasked (old_new secrets) secrets
unfolding masker_write
masker_write-Shows base secrets text =
    let (out, shows, same) =
      write_masked-Shows base (old_new secrets) text (old_new-IsPair secrets) in
    (out, shows, same, old_new-IsPair secrets, old_new-AreMasked secrets)
