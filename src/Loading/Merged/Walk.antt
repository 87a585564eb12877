-- ===== src/Loading/Merged/Walk.antt =====
-- The walk of config/parse.go, and what `Merged` says of it.
use test_at_scale.Prelude.{
  String, ◌⧺◌, ◌≡◌, refl, sym, ap, ◌∙◌, Bool, true, false, Option, none, some, List, [], ◌∷◌,
  str_eq, eq_iff, arith, if◌then◌else◌,
}
use mathlib.Core.List.{append-nil}
use test_at_scale.Models.{ℤ, pos, negsuc, eqb_ℤ}
use test_at_scale.Errs.{ok, ◌>>=◌}
use test_at_scale.Loading.{
  Kind, integer, integer32, text, flag, mapping, struct, other, Fields, end, field, Value, Values,
  Settings, get_tags, to_int32, put_int, put_int32, put_string, put_bool, each_tag, recursively_set,
  set_field,
}
use test_at_scale.Loading.Merged.{
  or_else, keys_after, ap2, merged, merged_field, merged_field-append, first_of, reached,
  first_other, field_other, result_of,
}

put_int-given : (x v : ℤ) → put_int x v ≡ or_else (if eqb_ℤ x (pos 0) then none else some x) v
put_int-given (pos x) (pos v) = ground arith
put_int-given (pos x) (negsuc v) = ground arith
put_int-given (negsuc x) v = refl

put_int32-given :
    (x v : ℤ) → put_int32 x v ≡ or_else (if eqb_ℤ x (pos 0) then none else some (to_int32 x)) v
put_int32-given (pos x) (pos v) = ground arith
put_int32-given (pos x) (negsuc v) = ground arith
put_int32-given (negsuc x) v = refl

put_string-given :
    (x v : String) → put_string x v ≡ or_else (if str_eq x "" then none else some x) v
put_string-given x v = ground (arith, eq_iff x "", eq_iff v "")

put_bool-given : (x v : Bool) → put_bool x v ≡ or_else (if x then some true else none) v
put_bool-given true v = refl
put_bool-given false true = refl
put_bool-given false false = refl

-- Nothing changes where there are no keys.
mutual
  unfolding Value merged

  merged_nil : (s : Settings) (fields : Fields) (vs : Values fields) → merged s [] fields vs ≡ vs
  merged_nil s end vs = refl
  merged_nil s (field f kind fields) vs =
      ap2 (merged_field_nil s kind vs.0) (merged_nil s fields vs.1)

  merged_field_nil : (s : Settings) (kind : Kind) (v : Value kind) → merged_field s [] kind v ≡ v
  merged_field_nil s (struct fields) vs = merged_nil s fields vs
  merged_field_nil s (other name) v = refl
  merged_field_nil s integer v = refl
  merged_field_nil s integer32 v = refl
  merged_field_nil s text v = refl
  merged_field_nil s flag v = refl
  merged_field_nil s mapping v = refl

reached_none {ℓ} : {A : Type ℓ} (tags : List String) → ◌≡◌ {A = Option A} (reached tags none) none
reached_none [] = refl
reached_none (tag ∷ tags) = refl

-- The loop over the tags, for a kind whose setting under one key is known.
each_tag-merged :
    (s : Settings) (prefix : String) (kind : Kind)
    → ((key : String) (v : Value kind)
        → set_field s key kind v ≡ result_of (field_other kind) (merged_field s (key ∷ []) kind v))
    → (tags : List String) (v : Value kind)
    → each_tag (λ tag x. set_field s (prefix ⧺ tag) kind x) tags v
      ≡ result_of (reached tags (field_other kind)) (merged_field s (keys_after prefix tags) kind v)
unfolding each_tag
each_tag-merged s prefix kind one [] v = ap ok (sym (merged_field_nil s kind v))
each_tag-merged s prefix kind one (tag ∷ tags) v = rw (one (prefix ⧺ tag) v) (
    known (field_other kind) refl
      (each_tag-merged s prefix kind one tags (merged_field s ((prefix ⧺ tag) ∷ []) kind v)))
  where
    known :
        (o : Option String)
        → field_other kind ≡ o
        → each_tag
            (λ tag' x. set_field s (prefix ⧺ tag') kind x)
            tags
            (merged_field s ((prefix ⧺ tag) ∷ []) kind v)
          ≡ result_of (reached tags (field_other kind)) (
              merged_field s
                (keys_after prefix tags)
                kind
                (merged_field s ((prefix ⧺ tag) ∷ []) kind v))
        → (result_of o (merged_field s ((prefix ⧺ tag) ∷ []) kind v) >>= λ v'.
            each_tag (λ tag x. set_field s (prefix ⧺ tag) kind x) tags v')
          ≡ result_of o (merged_field s (keys_after prefix (tag ∷ tags)) kind v)
    known (some name) e rest = refl
    known none e rest =
        rest
        ∙ ap
            (λ o. result_of o (
              merged_field s (keys_after prefix tags) kind
                (merged_field s ((prefix ⧺ tag) ∷ []) kind v)))
            (ap (reached tags) e ∙ reached_none tags)
        ∙ ap ok (merged_field-append s ((prefix ⧺ tag) ∷ []) (keys_after prefix tags) kind v)

joined {ℓ κ} :
    {A : Type ℓ} {B : Type κ} (o p : Option String) {a a' : A} (b : B)
    → a ≡ a'
    → ◌>>=◌ {B = A × B} (result_of o a) (λ v. result_of p b >>= λ rest. ok (v, rest))
      ≡ result_of (first_of o p) (a', b)
joined (some x) p b e = refl
joined none (some x) b e = refl
joined none none b e = ap (λ x. ok (x, b)) e

mutual
  unfolding Value recursively_set merged first_other

  set-merged :
      (s : Settings) (prefix : String) (fields : Fields) (vs : Values fields)
      → recursively_set s prefix fields vs
        ≡ result_of (first_other fields) (merged s (prefix ∷ []) fields vs)
  set-merged s prefix end vs = refl
  set-merged s prefix (field f kind fields) vs =
      rw
        (
          each_tag-merged s prefix kind (λ key v. set_field-merged s key kind v) (get_tags f) vs.0,
          set-merged s prefix fields vs.1,
        )
        (joined (reached (get_tags f) (field_other kind)) (first_other fields)
          (merged s (prefix ∷ []) fields vs.1)
          (ap (λ ks. merged_field s ks kind vs.0)
            (sym (append-nil (keys_after prefix (get_tags f))))))

  set_field-merged :
      (s : Settings) (key : String) (kind : Kind) (v : Value kind)
      → set_field s key kind v ≡ result_of (field_other kind) (merged_field s (key ∷ []) kind v)
  set_field-merged s key (struct fields) vs = set-merged s (key ⧺ ".") fields vs
  set_field-merged s key (other name) v = refl
  set_field-merged s key integer v = ap ok (put_int-given (s.get_int key) v)
  set_field-merged s key integer32 v = ap ok (put_int32-given (s.get_int key) v)
  set_field-merged s key text v = ap ok (put_string-given (s.get_string key) v)
  set_field-merged s key flag v = ap ok (put_bool-given (s.get_bool key) v)
  set_field-merged s key mapping v = refl

-- `recursivelySet` fails exactly if it reaches a field of a kind that it does not know, with an error
-- that names the first such kind, and otherwise gives every variable the last value that viper has
-- for one of its keys and that is not zero, where a key joins a tag of each struct on the way to the
-- variable; a variable without such a value keeps the one it had.
pub recursively_set-merged :
    (s : Settings) (prefix : String) (fields : Fields) (vs : Values fields)
    → recursively_set s prefix fields vs
      ≡ result_of (first_other fields) (merged s (prefix ∷ []) fields vs)
recursively_set-merged s prefix fields vs = set-merged s prefix fields vs
