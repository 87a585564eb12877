-- ===== src/Prelude/Maps.antt =====
-- A Go map with text keys, as its list of entries. A write replaces the value of a key in place or
-- adds an entry, so a key stands in it once; the order of the entries stands for the order in which
-- one iteration of Go visits them, and is never relied on.
use Prim.Native.String.{String}
use mathlib.Core.Path.{◌≡◌, refl, ap, ◌∙◌}
use mathlib.Core.Logic.{inl, inr}
use mathlib.Core.Bool.{Bool, false}
use mathlib.Core.List.{List, [], ◌∷◌}
use mathlib.Core.Option.{Option, none, some}
use native.Mathlib.Omega.{arith}
use text.Mathlib.Text.{◌==◌ as str_eq}
use text.Mathlib.TextEquality.{eq_iff}
use test_at_scale.Prelude.Tests.{if◌then◌else◌, is_some, Bool-cases}

abbrev pub Dict {ℓ} : Type ℓ → Type ℓ
Dict V = List (String × V)

module _ {ℓ} {V : Type ℓ} where
  unfoldable pub lookup : String → Dict V → Option V
  lookup key [] = none
  lookup key (entry ∷ rest) = if str_eq entry.0 key then some entry.1 else lookup key rest

  unfoldable pub insert : String → V → Dict V → Dict V
  insert key value [] = (key, value) ∷ []
  insert key value (entry ∷ rest) =
      if str_eq entry.0 key then (key, value) ∷ rest else entry ∷ insert key value rest

  abbrev pub contains_key : String → Dict V → Bool
  contains_key key dict = is_some (lookup key dict)

  -- A read after a write: the value written, at its key, and else what was there.
  pub lookup-insert :
      (written read : String) (value : V) (dict : Dict V)
      → lookup read (insert written value dict)
        ≡ (if str_eq written read then some value else lookup read dict)
  unfolding lookup insert
  lookup-insert written read value [] = refl
  lookup-insert written read value (entry ∷ rest) = ground (
    arith,
    lookup-insert written read value rest,
    eq_iff entry.0 read,
    eq_iff entry.0 written,
    eq_iff written read,
  )

  -- No key stands in the entries twice, as in every Go map.
  abbrev pub IsUnique : Dict V → Type ℓ
  IsUnique [] = Unit
  IsUnique (entry ∷ rest) = (lookup entry.0 rest ≡ none) × IsUnique rest

  pub insert-IsUnique :
      (key : String) (value : V) (dict : Dict V) → IsUnique dict → IsUnique (insert key value dict)
  unfolding insert lookup
  insert-IsUnique key value [] u = (refl, tt)
  insert-IsUnique key value (entry ∷ rest) u = elim (Bool-cases (str_eq entry.0 key)) [
    | inl same ↦ let e : entry.0 ≡ key = (eq_iff entry.0 key).0 same in rw same ((rw e at u.0), u.1)
    | inr other ↦
        let other' : str_eq key entry.0 ≡ false =
          ground (arith, eq_iff entry.0 key, eq_iff key entry.0) in
        let absent : lookup entry.0 (insert key value rest) ≡ none =
          lookup-insert key entry.0 value rest ∙ (rw other' u.0) in
        rw other (absent, insert-IsUnique key value rest u.1)
  ]

  -- Writing all entries of a map over another: `for k, v := range extra { dict[k] = v }`.
  unfoldable pub overlay : Dict V → Dict V → Dict V
  overlay dict [] = dict
  overlay dict ((key, value) ∷ extra) = overlay (insert key value dict) extra

  abbrev pub or_else : Option V → Option V → Option V
  or_else none other = other
  or_else (some v) other = some v

  pub lookup-overlay :
      (read : String) (dict extra : Dict V)
      → IsUnique extra
      → lookup read (overlay dict extra) ≡ or_else (lookup read extra) (lookup read dict)
  unfolding overlay lookup
  lookup-overlay read dict [] u = refl
  lookup-overlay read dict ((key, value) ∷ extra) u =
      lookup-overlay read (insert key value dict) extra u.1
      ∙ ap (or_else (lookup read extra)) (lookup-insert key read value dict)
      ∙ elim (Bool-cases (str_eq key read)) [
        | inr other ↦ rw other refl
        | inl same ↦
            let e : key ≡ read = (eq_iff key read).0 same in
            let absent : lookup read extra ≡ none = rw e at u.0 in rw (same, absent) refl
      ]
