-- ===== src/Datasets/Examples.antt =====
-- A version that is edited while an old preview of another one is still shown, and a list of values.
use llm_evaluation.Prelude.{
  ◌≡◌, ◌⊎◌, refl, Bool, true, ◌==◌, if◌then◌else◌, none, some, List, [], ◌∷◌, Text, codes, text_eq,
  includes, trim, is_space, drop_start, drop_end, cut,
}
use llm_evaluation.Types.Datasets.{Dataset, EvaluationType}
use llm_evaluation.Datasets.{
  DatasetFormValues, dataset_edit_form, dataset_payload, dataset_prepare_label, needs_license,
  is_dataset_active,
}
use llm_evaluation.Datasets.Page.{
  Event, DatasetPreview, initial_page, find_dataset, selected_from, selected_dataset, preview_of,
  schema_fields, fields_collide, schema_mismatch, is_editing, can_save, ask_preview, is_ready,
  can_preview, open_edit, click, on_selected, step, run, sent_for, sent,
}
use llm_evaluation.Datasets.Previews.{Answered}
use llm_evaluation.Datasets.Edits.{last_opened, IsApart, IsFit, run-sent}
use llm_evaluation.Datasets.Values.{
  ValueInput, ValueEvent, typed, entered, blurred, backspace, removed, underscored,
  normalize_capability, but_last, has_value, add_draft, IsClean, run-IsClean,
}
use llm_evaluation.Datasets.Values as Values

abbrev dataset : Text → Dataset Bool
dataset id = record {
  id = id;
  dataset_id = codes "squad";
  version = codes "1";
  revision = codes "main";
  source_url = none;
  credential_binding_id = none;
  checksum = none;
  local_path = some (codes "/cache");
  size_bytes = none;
  license_text = none;
  license_accepted_at = none;
  status = codes "ready";
  error_message = none;
  input_field = some (codes "question");
  reference_field = some (codes "answer");
  capabilities = [];
  languages = [];
  evaluation_type = EvaluationType.generation;
}

abbrev preview : Text → DatasetPreview Bool
preview id = record {
  dataset_id = id;
  fields = codes "answer" ∷ codes "question" ∷ [];
  rows = true ∷ [];
}

program : Unit {0}
unfolding dataset_edit_form dataset_payload dataset_prepare_label needs_license is_dataset_active
    find_dataset selected_from selected_dataset preview_of schema_fields fields_collide
    schema_mismatch is_editing can_save ask_preview is_ready can_preview open_edit click on_selected
    step run sent_for sent text_eq includes trim is_space drop_start drop_end cut underscored
    normalize_capability but_last has_value add_draft Values.step Values.run
program = tt

abbrev visit : List (Event Bool Bool)
visit =
    Event.listed (dataset (codes "a") ∷ dataset (codes "b") ∷ [])
    ∷ Event.request_preview
    ∷ Event.select (codes "b")
    ∷ Event.start_edit
    ∷ Event.previewed (preview (codes "a"))
    ∷ Event.preview_settled
    ∷ []

abbrev sent_form : DatasetFormValues
sent_form = record {
  checksum = [];
  credential_binding_id = [];
  dataset_id = codes "squad";
  input_field = codes "question";
  license_text = [];
  reference_field = codes "answer";
  revision = codes "main";
  source_url = [];
  version = codes "1";
  capabilities = [];
  languages = [];
  evaluation_type = EvaluationType.generation;
}

sends : sent (run visit initial_page) ≡ some (codes "b", sent_form)
unfolding program
sends = refl

run-sent_example :
    (last_opened visit initial_page none ≡ some (codes "b"))
    × IsApart sent_form
    × (((run visit initial_page).preview ≡ none)
        ⊎ ((p : DatasetPreview Bool) × ((run visit initial_page).preview ≡ some p)
            × Answered p visit
            × IsFit (codes "b") sent_form p))
run-sent_example = run-sent visit (codes "b") sent_form sends

abbrev lower_a : Text → Text
lower_a [] = []
lower_a (c ∷ s) = (if c == 65 then 97 else c) ∷ lower_a s

abbrev typing : List ValueEvent
typing =
    typed (codes " A - b ")
    ∷ entered
    ∷ typed (codes "a-B")
    ∷ blurred
    ∷ typed (codes "a b")
    ∷ entered
    ∷ []

capability_typed :
    (Values.run lower_a
      (normalize_capability lower_a)
      typing
      (record { values = []; draft = [] })).values
    ≡ codes "a_b" ∷ codes "a_B" ∷ []
unfolding program
capability_typed = refl

run-IsClean_example :
    IsClean lower_a
      (Values.run lower_a
        (normalize_capability lower_a)
        typing
        (record { values = []; draft = [] })).values
run-IsClean_example =
    run-IsClean lower_a (normalize_capability lower_a) typing (record { values = []; draft = [] })
      (tt, tt)
