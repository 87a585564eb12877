-- ===== src/Loading/Merged.antt =====
-- What the walk of config/parse.go makes of a configuration: each variable has, of the values that viper
-- gives under its keys, the last that is not zero.
pub mod Walk
use test_at_scale.Prelude.{
  String, ◌⧺◌, ◌≡◌, refl, sym, ap, ◌∙◌, Bool, true, false, Option, none, some, List, [], ◌∷◌, ◌++◌,
  map, str_eq, eq_iff, arith, if◌then◌else◌,
}
use mathlib.Core.List.{append-nil, append_assoc, map-append}
use test_at_scale.Models.{ℤ, pos, negsuc, eqb_ℤ}
use test_at_scale.Errs.{Result, ok, err, ◌>>=◌}
use test_at_scale.Loading.{
  Kind, integer, integer32, text, flag, mapping, struct, other, Fields, end, field, Value, Values,
  Settings, get_tags, to_int32, put_int, put_int32, put_string, put_bool, unexpected, each_tag,
  recursively_set, set_field,
}

abbrev pub or_else {ℓ} : {A : Type ℓ} → Option A → A → A
or_else none v = v
or_else (some x) v = x

-- The last of the values that is given, or else the one that was there.
abbrev pub last_given {ℓ} : {A : Type ℓ} → List (Option A) → A → A
last_given [] v = v
last_given (o ∷ os) v = last_given os (or_else o v)

last_given-append {ℓ} :
    {A : Type ℓ} (xs ys : List (Option A)) (v : A)
    → last_given ys (last_given xs v) ≡ last_given (xs ++ ys) v
last_given-append [] ys v = refl
last_given-append (o ∷ xs) ys v = last_given-append xs ys (or_else o v)

-- What viper gives under a key: a zero value is none.
abbrev pub given_int : Settings → String → Option ℤ
given_int s key = if eqb_ℤ (s.get_int key) (pos 0) then none else some (s.get_int key)

abbrev pub given_int32 : Settings → String → Option ℤ
given_int32 s key = if eqb_ℤ (s.get_int key) (pos 0) then none else some (to_int32 (s.get_int key))

abbrev pub given_string : Settings → String → Option String
given_string s key = if str_eq (s.get_string key) "" then none else some (s.get_string key)

abbrev pub given_bool : Settings → String → Option Bool
given_bool s key = if s.get_bool key then some true else none

-- The keys of a field: its tags after each prefix, those of the first prefix first.
abbrev pub keys_after : String → List String → List String
keys_after prefix tags = map (λ tag. prefix ⧺ tag) tags

abbrev pub keys : List String → List String → List String
keys [] tags = []
keys (prefix ∷ prefixes) tags = keys_after prefix tags ++ keys prefixes tags

abbrev pub dotted : List String → List String
dotted ks = map (λ key. key ⧺ ".") ks

keys-append : (ps qs tags : List String) → keys (ps ++ qs) tags ≡ keys ps tags ++ keys qs tags
keys-append [] qs tags = refl
keys-append (p ∷ ps) qs tags =
    ap (λ l. keys_after p tags ++ l) (keys-append ps qs tags)
    ∙ sym (append_assoc (keys_after p tags) (keys ps tags) (keys qs tags))

pub ap2 {ℓ κ} :
    {A : Type ℓ} {B : Type κ} {a a' : A} {b b' : B}
    → a ≡ a'
    → b ≡ b'
    → ◌≡◌ {A = A × B} (a, b) (a', b')
ap2 {A} {B} {a' = a'} {b = b} p q = ap (λ x. (x, b)) p ∙ ap (λ y. (a', y)) q

-- A configuration after viper's values, where a variable goes by all the keys that are given.
unfoldable mutual
  unfolding Value

  pub merged : Settings → List String → (fields : Fields) → Values fields → Values fields
  merged s prefixes end vs = vs
  merged s prefixes (field f kind fields) vs =
      (merged_field s (keys prefixes (get_tags f)) kind vs.0, merged s prefixes fields vs.1)

  pub merged_field : Settings → List String → (kind : Kind) → Value kind → Value kind
  merged_field s ks integer v = last_given (map (given_int s) ks) v
  merged_field s ks integer32 v = last_given (map (given_int32 s) ks) v
  merged_field s ks text v = last_given (map (given_string s) ks) v
  merged_field s ks flag v = last_given (map (given_bool s) ks) v
  merged_field s ks mapping v = v
  merged_field s ks (struct fields) vs = merged s (dotted ks) fields vs
  merged_field s ks (other name) v = v

-- Merging under some keys and then under others is merging under all of them.
given_append {ℓ} :
    {A : Type ℓ} (given : String → Option A) (ks ls : List String) (v : A)
    → last_given (map given ls) (last_given (map given ks) v) ≡ last_given (map given (ks ++ ls)) v
given_append given ks ls v =
    last_given-append (map given ks) (map given ls) v
    ∙ ap (λ os. last_given os v) (sym (map-append given ks ls))

mutual
  unfolding Value merged

  merged-append :
      (s : Settings) (ps qs : List String) (fields : Fields) (vs : Values fields)
      → merged s qs fields (merged s ps fields vs) ≡ merged s (ps ++ qs) fields vs
  merged-append s ps qs end vs = refl
  merged-append s ps qs (field f kind fields) vs =
      ap2
        (merged_field-append s (keys ps (get_tags f)) (keys qs (get_tags f)) kind vs.0
          ∙ ap (λ ks. merged_field s ks kind vs.0) (sym (keys-append ps qs (get_tags f))))
        (merged-append s ps qs fields vs.1)

  pub merged_field-append :
      (s : Settings) (ks ls : List String) (kind : Kind) (v : Value kind)
      → merged_field s ls kind (merged_field s ks kind v) ≡ merged_field s (ks ++ ls) kind v
  merged_field-append s ks ls integer v = given_append (given_int s) ks ls v
  merged_field-append s ks ls integer32 v = given_append (given_int32 s) ks ls v
  merged_field-append s ks ls text v = given_append (given_string s) ks ls v
  merged_field-append s ks ls flag v = given_append (given_bool s) ks ls v
  merged_field-append s ks ls mapping v = refl
  merged_field-append s ks ls (struct fields) vs =
      merged-append s (dotted ks) (dotted ls) fields vs
      ∙ ap (λ ps. merged s ps fields vs) (sym (map-append (λ key. key ⧺ ".") ks ls))
  merged_field-append s ks ls (other name) v = refl

-- The kind of the first field that is reached and cannot be set.
abbrev pub first_of {ℓ} : {A : Type ℓ} → Option A → Option A → Option A
first_of (some x) o = some x
first_of none o = o

abbrev pub reached {ℓ} : {A : Type ℓ} → List String → Option A → Option A
reached [] o = none
reached (tag ∷ tags) o = o

unfoldable mutual
  pub first_other : Fields → Option String
  first_other end = none
  first_other (field f kind fields) =
      first_of (reached (get_tags f) (field_other kind)) (first_other fields)

  pub field_other : Kind → Option String
  field_other (struct fields) = first_other fields
  field_other (other name) = some name
  field_other integer = none
  field_other integer32 = none
  field_other text = none
  field_other flag = none
  field_other mapping = none

abbrev pub result_of {ℓ} : {A : Type ℓ} → Option String → A → Result A
result_of none v = ok v
result_of (some kind) v = err (unexpected kind)
