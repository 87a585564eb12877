-- ===== src/Loading.antt =====
-- config/parse.go, config/loader.go and config/default.go: the configurations of nucleus and synapse
-- are filled from viper's settings by walking over their struct types.
-- A struct type is described by `Fields`, and its values by the types that it stands for. Viper answers
-- through `Settings`, which is what it has found in the flags, the environment, the file and its defaults.
-- The walk is only ever given a pointer to a struct, so the two errors before its loop have no counterpart.
pub mod Types
pub mod Merged
pub mod Validated
pub mod Tests
use test_at_scale.Prelude.{
  ℕ, ◌+◌, ◌-◌, ◌^◌, ◌%◌, String, ◌⧺◌, Bool, true, false, not, ◌&&◌, none, some, List, [], ◌∷◌,
  Option, Dict, lookup, str_eq, ltb, ◌==◌, if◌then◌else◌,
}
use test_at_scale.Models.{ℤ, pos, negsuc, eqb_ℤ}
use test_at_scale.Errs.{Err, error, Result, ok, err, ◌>>=◌}
use test_at_scale.Format.{or_empty}

-- A field's name, and its tag as the pairs of a key and a value that it is written with.
pub record StructField : Type 0 where
  pub name : String
  pub tag : Dict String

-- The kinds of package reflect that the walk tells apart.
mutual
  pub data Kind : Type 0 where
    integer integer32 text flag mapping : Kind
    struct : Fields → Kind
    other : String → Kind

  pub data Fields : Type 0 where
    end : Fields
    field : StructField → Kind → Fields → Fields

-- What a variable of a kind holds. The walk never looks into a map or a value of an other kind.
unfoldable mutual
  pub Value : Kind → Type 0
  Value integer = ℤ
  Value integer32 = ℤ
  Value text = String
  Value flag = Bool
  Value mapping = Dict (Dict String)
  Value (struct fields) = Values fields
  Value (other name) = Unit {0}

  pub Values : Fields → Type 0
  Values end = Unit {0}
  Values (field f kind fields) = Value kind × Values fields

pub record Settings : Type 0 where
  pub get_int : String → ℤ
  pub get_string : String → String
  pub get_bool : String → Bool

-- `SetInt` on a field of 32 bits keeps the low ones.
abbrev pub low_bits : ℤ → ℕ
low_bits (pos n) = n % 2 ^ 32
low_bits (negsuc n) = 2 ^ 32 - 1 - n % 2 ^ 32

abbrev pub signed : ℕ → ℤ
signed n = if ltb n (2 ^ 31) then pos n else negsuc (2 ^ 32 - 1 - n)

abbrev pub to_int32 : ℤ → ℤ
to_int32 x = signed (low_bits x)

-- `tag.Get` of each key that is tried, without the empty ones.
abbrev pub non_empty : List String → List String
non_empty [] = []
non_empty (v ∷ vs) = if str_eq v "" then non_empty vs else v ∷ non_empty vs

abbrev pub tag_values : Dict String → List String
tag_values tag = non_empty (
    or_empty (lookup "viper" tag)
    ∷ or_empty (lookup "yaml" tag)
    ∷ or_empty (lookup "json" tag)
    ∷ or_empty (lookup "env" tag)
    ∷ or_empty (lookup "mapstructure" tag)
    ∷ [])

abbrev tags_or_name : String → Dict String → List String
tags_or_name name [] = name ∷ []
tags_or_name name (entry ∷ tag) = tag_values (entry ∷ tag)

unfoldable pub get_tags : StructField → List String
unfolding lookup or_empty
get_tags f = tags_or_name f.name f.tag

-- The update of one variable from what viper has under a key.
abbrev pub put_int : ℤ → ℤ → ℤ
put_int x v = if eqb_ℤ x (pos 0) && not (eqb_ℤ v (pos 0)) then v else x

abbrev pub put_int32 : ℤ → ℤ → ℤ
put_int32 x v = if eqb_ℤ x (pos 0) && not (eqb_ℤ v (pos 0)) then v else to_int32 x

abbrev pub put_string : String → String → String
put_string x v = if str_eq x "" && not (str_eq v "") then v else x

abbrev pub put_bool : Bool → Bool → Bool
put_bool x v = if not x && v then v else x

abbrev pub unexpected : String → Err
unexpected kind = error ("unexpected type detected ~ aborting: " ⧺ kind)

-- The loop over the tags of a field.
unfoldable pub each_tag {ℓ} : {A : Type ℓ} → (String → A → Result A) → List String → A → Result A
each_tag set [] v = ok v
each_tag set (tag ∷ tags) v = set tag v >>= λ v'. each_tag set tags v'

-- `recursivelySet`: the fields of a struct, and one field under one key.
unfoldable mutual
  unfolding Value

  pub recursively_set :
      Settings → String → (fields : Fields) → Values fields → Result (Values fields)
  recursively_set s prefix end vs = ok vs
  recursively_set s prefix (field f kind fields) vs =
      each_tag (λ tag v. set_field s (prefix ⧺ tag) kind v) (get_tags f) vs.0 >>= λ v.
      recursively_set s prefix fields vs.1 >>= λ rest. ok (v, rest)

  pub set_field : Settings → String → (kind : Kind) → Value kind → Result (Value kind)
  set_field s key (struct fields) v = recursively_set s (key ⧺ ".") fields v
  set_field s key integer v = ok (put_int (s.get_int key) v)
  set_field s key integer32 v = ok (put_int32 (s.get_int key) v)
  set_field s key text v = ok (put_string (s.get_string key) v)
  set_field s key flag v = ok (put_bool (s.get_bool key) v)
  set_field s key mapping v = ok v
  set_field s key (other kind) v = err (unexpected kind)

-- What `new` allocates.
unfoldable mutual
  unfolding Value

  pub zero_value : (kind : Kind) → Value kind
  zero_value integer = pos 0
  zero_value integer32 = pos 0
  zero_value text = ""
  zero_value flag = false
  zero_value mapping = []
  zero_value (struct fields) = zero_values fields
  zero_value (other kind) = tt

  pub zero_values : (fields : Fields) → Values fields
  zero_values end = tt
  zero_values (field f kind fields) = (zero_value kind, zero_values fields)
