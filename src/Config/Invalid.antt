-- ===== src/Config/Invalid.antt =====
-- The error for a configuration whose fields the validator of struct tags rejects: `ErrInvalidConf` of
-- pkg/errs/nucleus.go and `validateStruct` of pkg/utils/utils.go. A value has any type, and `show` is
-- how `fmt` prints it. An index out of range, on which Go panics, is `none`.
use test_at_scale.Prelude.{
  ℕ, suc, ◌+◌, arith, String, ◌⧺◌, ◌≡◌, ◌∙◌, ap, sym, Option, none, some, List, [], ◌∷◌, ◌++◌, map,
  get_elem?,
}
use mathlib.Core.List.{append-nil, append_assoc}
use text.Mathlib.TextLemmas.{append_assoc as text_assoc, append-nil as text-nil}

pub record ErrInvalidConf {ℓ} (A : Type ℓ) : Type ℓ where
  pub message : String
  pub fields : List String
  pub values : List A

-- `e.Field()` and `e.Value()` of an error of the validator.
pub record FieldError {ℓ} (A : Type ℓ) : Type ℓ where
  pub field : String
  pub value : A

module _ {ℓ} {A : Type ℓ} (show : A → String) where
  abbrev field_line : String → A → String
  field_line field value = field ⧺ (": " ⧺ (show value ⧺ "\n"))

  -- The loop of `Error` from the position `idx` on.
  abbrev error_from : List A → List String → ℕ → String → Option String
  error_from values [] idx err_msg = some err_msg
  error_from values (field ∷ fields) idx err_msg = elim (get_elem? values idx) [
    | none ↦ none
    | some value ↦ error_from values fields (idx + 1) (err_msg ⧺ field_line field value)
  ]

  -- `ErrInvalidConf.Error`
  unfoldable pub error_text : ErrInvalidConf A → Option String
  error_text e = error_from e.values e.fields 0 e.message

  abbrev field_lines : List (FieldError A) → String
  field_lines [] = ""
  field_lines (e ∷ es) = field_line e.field e.value ⧺ field_lines es

-- The loop of `validateStruct` over the validator's errors.
abbrev rejected_fields {ℓ} :
    {A : Type ℓ} → ErrInvalidConf A → List (FieldError A) → ErrInvalidConf A
rejected_fields err [] = err
rejected_fields err (e ∷ es) =
    rejected_fields
      (record err { fields = err.fields ++ e.field ∷ []; values = err.values ++ e.value ∷ [] }) es

abbrev title : String → String
title file =
    "Invalid values provided for the following fields in the `" ⧺ file ⧺ "` configuration file: \n"

-- `validateStruct`, given what the validator answers.
unfoldable pub invalid_conf {ℓ} :
    {A : Type ℓ} → String → Option (List (FieldError A)) → Option (ErrInvalidConf A)
invalid_conf file none = none
invalid_conf file (some es) =
    some (rejected_fields (record { message = title file; fields = []; values = [] }) es)

rejected_fields_lem {ℓ} :
    {A : Type ℓ} (e : ErrInvalidConf A) (es : List (FieldError A))
    → rejected_fields e es ≡ record {
      message = e.message;
      fields = e.fields ++ map (λ x. x.field) es;
      values = e.values ++ map (λ x. x.value) es;
    }
rejected_fields_lem e [] = rw (append-nil e.fields, append-nil e.values)
rejected_fields_lem e (x ∷ es) =
    rejected_fields_lem
      (record e { fields = e.fields ++ x.field ∷ []; values = e.values ++ x.value ∷ [] }) es
    ∙ rw (
      append_assoc e.fields (x.field ∷ []) (map (λ y. y.field) es),
      append_assoc e.values (x.value ∷ []) (map (λ y. y.value) es),
    )

module _ {ℓ} {A : Type ℓ} (show : A → String) where
  -- Where the values from `idx` on are those of `es`, the loop adds the lines of `es`.
  error_from-field_lines :
      (values : List A) (es : List (FieldError A)) (idx : ℕ) (err_msg : String)
      → ((k : ℕ) → get_elem? values (idx + k) ≡ get_elem? (map (λ x. x.value) es) k)
      → error_from show values (map (λ x. x.field) es) idx err_msg
        ≡ some (err_msg ⧺ field_lines show es)
  error_from-field_lines values [] idx msg same = ap some (sym (text-nil msg))
  error_from-field_lines values (e ∷ es) idx msg same =
      let here : get_elem? values idx ≡ some e.value =
        ap (get_elem? values) (omega arith) ∙ same 0 in
      let later : (k : ℕ) → get_elem? values (idx + 1 + k) ≡ get_elem? (map (λ x. x.value) es) k =
        λ k. ap (get_elem? values) (omega arith) ∙ same (suc k) in
      rw (here, error_from)
        (error_from-field_lines values es (idx + 1) (msg ⧺ field_line show e.field e.value) later
          ∙ ap some (text_assoc msg (field_line show e.field e.value) (field_lines show es)))

  -- However many fields the validator rejects, the text of the error is made without an index out of
  -- range: the title with the file's name, then one line for each of them, in the validator's order.
  pub error_text-invalid_conf :
      (file : String) (es : List (FieldError A))
      → (e : ErrInvalidConf A) × (invalid_conf file (some es) ≡ some e)
        × (error_text show e ≡ some (title file ⧺ field_lines show es))
  unfolding invalid_conf error_text
  error_text-invalid_conf file es = (
    _,
    ap some (rejected_fields_lem (record { message = title file; fields = []; values = [] }) es),
    error_from-field_lines (map (λ x. x.value) es) es 0 (title file)
        (λ k. ap (get_elem? (map (λ x. x.value) es)) (omega arith)),
  )
