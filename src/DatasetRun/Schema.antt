-- ===== src/DatasetRun/Schema.antt =====
-- The fields of the prepared dataset and the fields that the form preselects, from the effect that
-- reads the preview in frontend/src/features/runs/RunsRoute.tsx.
use llm_evaluation.Prelude.{
  ◌≡◌, ◌↔◌, ◌⊎◌, inl, inr, refl, Bool, true, false, not, ◌&&◌, if◌then◌else◌, Option, none, some,
  List, [], ◌∷◌, keep, find, or_else, Text, text_eq, text_eq_iff, text_eq_refl, truthy, includes,
  arith, Bool-cases, Option-cases, sym, ◌∙◌,
}
use llm_evaluation.Prelude.Distinct.{
  distinct, includes-distinct, includes-keep, distinct-IsDistinct, IsDistinct,
}
use llm_evaluation.DatasetRun.{DatasetRunForm}

-- What the preview sets: the fields, the message under them, and the fields of the form.
pub record SchemaChoice : Type 0 where
  pub fields : List Text
  pub input_field : Text
  pub reference_field : Text
  pub error : Option Text

-- A declared field, if it is a field of the preview.
abbrev pub declared_in : List Text → Option Text → Option Text
declared_in fields none = none
declared_in fields (some field) = if truthy field && includes fields field then some field else none

abbrev pub is_empty : List Text → Bool
is_empty [] = true
is_empty (field ∷ fields) = false

abbrev pub first_of : List Text → Text
first_of [] = []
first_of (field ∷ fields) = field

-- The declared fields are those of the selected dataset, if there is one.
unfoldable pub choose_fields :
    (schema_empty reference_required : Text)
    → (input reference : Option Text) → List Text
    → SchemaChoice
choose_fields schema_empty reference_required input reference preview =
    let fields = distinct (keep truthy preview) in
    let input_field = or_else (declared_in fields input) (first_of fields) in
    let reference_field =
      or_else (declared_in fields reference)
        (or_else (find (λ field. not (text_eq field input_field)) fields) []) in
    record {
      fields = fields;
      input_field = input_field;
      reference_field = reference_field;
      error =
          if is_empty fields
          then some schema_empty
          else (if truthy reference_field then none else some reference_required);
    }

-- The answer changes the form only while it still has the dataset that was asked for.
unfoldable pub fill_form : Text → SchemaChoice → DatasetRunForm → DatasetRunForm
fill_form dataset choice form =
    if text_eq form.dataset_version_id dataset
    then record form { input_field = choice.input_field; reference_field = choice.reference_field }
    else form

-- What is chosen from the fields of a preview, for a declared reference field.
pub record IsChoice (reference : Option Text) (preview : List Text) (c : SchemaChoice)
    : Type 0 where
  pub known : (field : Text) → includes c.fields field ≡ (truthy field && includes preview field)
  pub once : IsDistinct c.fields
  pub input_present : (is_empty c.fields ≡ true) ⊎ (includes c.fields c.input_field ≡ true)
  pub reference_present :
      truthy c.reference_field ≡ true → includes c.fields c.reference_field ≡ true
  pub no_error : (c.error ≡ none) ↔ (truthy c.reference_field ≡ true)
  pub collision :
      truthy c.reference_field ≡ true
      → c.input_field ≡ c.reference_field
      → reference ≡ some c.reference_field

includes-first_of :
    (fields : List Text) → (is_empty fields ≡ true) ⊎ (includes fields (first_of fields) ≡ true)
unfolding includes
includes-first_of [] = inl refl
includes-first_of (field ∷ fields) = inr (ground (arith, text_eq_refl field))

declared_in-some :
    (fields : List Text) (declared : Option Text) (field : Text)
    → declared_in fields declared ≡ some field
    → (includes fields field ≡ true) × (declared ≡ some field)
declared_in-some fields none field h = cc
declared_in-some fields (some text) field h = ground arith

find-other :
    (input : Text) (fields : List Text)
    → let other = or_else (find (λ field. not (text_eq field input)) fields) [] in
      truthy other ≡ true → (includes fields other ≡ true) × (text_eq other input ≡ false)
unfolding includes
find-other input [] h = cc
find-other input (field ∷ fields) h = ground (arith, find-other input fields, text_eq_refl field)

-- `choose_fields` on the fields of a preview without repetitions.
module _ (fields : List Text) (input reference : Option Text) where
  chosen_input :
      (is_empty fields ≡ true)
      ⊎ (includes fields (or_else (declared_in fields input) (first_of fields)) ≡ true)
  chosen_input = elim (Option-cases (declared_in fields input)) [
    | inl e ↦ rw e (includes-first_of fields)
    | inr (field, e) ↦ rw e (inr (declared_in-some fields input field e).0)
  ]

  chosen_reference :
      (first : Text)
      → let other = or_else (find (λ field. not (text_eq field first)) fields) [] in
        let chosen = or_else (declared_in fields reference) other in
        truthy chosen ≡ true
        → (includes fields chosen ≡ true) × (first ≡ chosen → reference ≡ some chosen)
  chosen_reference first =
      let other = or_else (find (λ field. not (text_eq field first)) fields) [] in
      elim (Option-cases (declared_in fields reference)) [
        | inl e ↦ rw e (λ h.
            let (here, apart) = find-other first fields h in
            (here, λ same. absurd (cc ((text_eq_iff other first).1 (sym same), apart))))
        | inr (field, e) ↦ rw e (λ h.
            let (here, declared) = declared_in-some fields reference field e in
            (here, λ same. declared))
      ]

chosen-empty :
    (fields : List Text) (reference : Option Text) (first : Text)
    → is_empty fields ≡ true
    → truthy (
        or_else
          (declared_in fields reference)
          (or_else (find (λ field. not (text_eq field first)) fields) []))
      ≡ false
unfolding includes
chosen-empty [] none first h = refl
chosen-empty [] (some text) first h = ground arith
chosen-empty (field ∷ fields) reference first h = cc

message-none :
    (schema_empty reference_required : Text) (fields : List Text) (chosen : Text)
    → (is_empty fields ≡ true → truthy chosen ≡ false)
    → ((if is_empty fields
          then some schema_empty
          else (if truthy chosen then none else some reference_required))
        ≡ none)
      ↔ (truthy chosen ≡ true)
message-none schema_empty reference_required fields chosen h = elim (Bool-cases (is_empty fields)) [
  | inl e ↦ let off = h e in ground arith
  | inr e ↦ ground arith
]

-- The fields that are offered are those of the preview that are not empty, each once. The preselected
-- fields are among these, unless there is none; there is no message exactly when there is a reference
-- field; and input and reference are the same field only if the dataset declares that field as its
-- reference.
pub choose_fields-IsChoice :
    (schema_empty reference_required : Text) (input reference : Option Text) (preview : List Text)
    → IsChoice reference preview
        (choose_fields schema_empty reference_required input reference preview)
unfolding choose_fields
choose_fields-IsChoice schema_empty reference_required input reference preview =
    let fields = distinct (keep truthy preview) in
    let first = or_else (declared_in fields input) (first_of fields) in
    let found = chosen_reference fields input reference first in
    record {
      known = λ field.
          includes-distinct (keep truthy preview) field ∙ includes-keep truthy preview field;
      once = distinct-IsDistinct (keep truthy preview);
      input_present = chosen_input fields input reference;
      reference_present = λ h. (found h).0;
      no_error =
          message-none schema_empty reference_required fields
            (or_else (declared_in fields reference)
              (or_else (find (λ field. not (text_eq field first)) fields) []))
            (chosen-empty fields reference first);
      collision = λ h same. (found h).1 same;
    }
