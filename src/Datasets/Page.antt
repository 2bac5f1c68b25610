-- ===== src/Datasets/Page.antt =====
-- DatasetsPage of components/pages/CatalogPages.tsx: which version is selected, previewed and edited.
-- The answers of previews are events and come in any order. `R` stands for the rows of a preview.
use llm_evaluation.Prelude.{
  Bool, true, false, not, ◌&&◌, ◌||◌, if◌then◌else◌, Option, none, some, List, [], ◌∷◌, any, truthy,
  Text, codes, text_eq, opt_eq, includes, is_some,
}
use llm_evaluation.Types.Datasets.{Dataset}
use llm_evaluation.Datasets.{
  DatasetFormValues, empty_dataset_edit_form, dataset_edit_form, is_dataset_active,
}

pub record DatasetPreview (R : Type 0) : Type 0 where
  pub dataset_id : Text
  pub fields : List Text
  pub rows : List R

-- `saving_id` is the version whose edit is being saved, which `busy` of the route says.
pub record State (N R : Type 0) : Type 0 where
  pub datasets : List (Dataset N)
  pub saving_id : Option Text
  pub preview : Option (DatasetPreview R)
  pub preview_error : Option Text
  pub previewing_id : Option Text
  pub editing_id : Option Text
  pub edit_form : DatasetFormValues
  pub selected_id : Option Text

abbrev pub initial_page : {N R : Type 0} → State N R
initial_page = record {
  datasets = [];
  saving_id = none;
  preview = none;
  preview_error = none;
  previewing_id = none;
  editing_id = none;
  edit_form = empty_dataset_edit_form;
  selected_id = none;
}

pub data Event (N R : Type 0) : Type 0 where
  listed : List (Dataset N) → Event N R
  saving : Option Text → Event N R
  select : Text → Event N R
  request_preview : Event N R
  previewed : DatasetPreview R → Event N R
  preview_failed : Text → Event N R
  preview_settled : Event N R
  start_edit : Event N R
  change_form : DatasetFormValues → Event N R
  stop_edit : Event N R
  submit_edit : Event N R

-- The preview that the inspector gets: the one of its version.
unfoldable pub preview_of :
    {R : Type 0} → Text → Option (DatasetPreview R) → Option (DatasetPreview R)
preview_of id none = none
preview_of id (some p) = if text_eq p.dataset_id id then some p else none

unfoldable pub schema_fields : {R : Type 0} → Option (DatasetPreview R) → List Text
schema_fields none = []
schema_fields (some p) = p.fields

unfoldable pub fields_collide : DatasetFormValues → Bool
fields_collide form = truthy form.input_field && text_eq form.input_field form.reference_field

abbrev pub has_schema : List Text → Bool
has_schema [] = false
has_schema (f ∷ fields) = true

unfoldable pub schema_mismatch : List Text → DatasetFormValues → Bool
schema_mismatch fields form =
    has_schema fields
    && any (λ field. truthy field && not (includes fields field))
        (form.input_field ∷ form.reference_field ∷ [])

module _ {N : Type 0} where
  abbrev pub first_dataset : List (Dataset N) → Option (Dataset N)
  first_dataset [] = none
  first_dataset (d ∷ ds) = some d

  -- `datasets.find(...) ?? datasets[0]`.
  unfoldable pub find_dataset : Text → List (Dataset N) → Option (Dataset N)
  find_dataset id [] = none
  find_dataset id (d ∷ ds) = if text_eq d.id id then some d else find_dataset id ds

  unfoldable pub selected_from : List (Dataset N) → Option Text → Option (Dataset N)
  selected_from datasets none = first_dataset datasets
  selected_from datasets (some id) = elim (find_dataset id datasets) [
    | none ↦ first_dataset datasets
    | some d ↦ some d
  ]

  unfoldable pub is_ready : Dataset N → Bool
  is_ready d = text_eq d.status (codes "ready")

  module _ {R : Type 0} where
    unfoldable pub selected_dataset : State N R → Option (Dataset N)
    selected_dataset s = selected_from s.datasets s.selected_id

    unfoldable pub is_editing : State N R → Dataset N → Bool
    is_editing s d = opt_eq s.editing_id (some d.id) && not (is_dataset_active d)

    unfoldable pub can_save : State N R → Dataset N → Bool
    can_save s d =
        is_editing s d
        && not (
            opt_eq s.saving_id (some d.id)
            || opt_eq s.previewing_id (some d.id)
            || fields_collide s.edit_form
            || schema_mismatch (schema_fields (preview_of d.id s.preview)) s.edit_form)

    unfoldable pub ask_preview : Dataset N → State N R → State N R
    ask_preview d s = record s { previewing_id = some d.id; preview_error = none }

    unfoldable pub can_preview : State N R → Dataset N → Bool
    can_preview s d =
        not (is_dataset_active d)
        && is_some d.local_path
        && is_ready d
        && not (opt_eq s.previewing_id (some d.id))

    unfoldable pub open_edit : Dataset N → State N R → State N R
    open_edit d s =
        let opened = record s {
          editing_id = some d.id;
          edit_form = dataset_edit_form d;
          preview = none;
        } in
        if is_ready d then ask_preview d opened else opened

    -- The clicks on the inspector of a version.
    unfoldable pub click : Event N R → Dataset N → State N R → State N R
    click request_preview d s = if can_preview s d then ask_preview d s else s
    click start_edit d s = if is_dataset_active d then s else open_edit d s
    click (change_form form) d s = if is_editing s d then record s { edit_form = form } else s
    click stop_edit d s = if is_editing s d then record s { editing_id = none } else s
    click submit_edit d s = if can_save s d then record s { editing_id = none } else s
    click e d s = s

    unfoldable pub on_selected : Event N R → Option (Dataset N) → State N R → State N R
    on_selected e none s = s
    on_selected e (some d) s = click e d s

    unfoldable pub step : Event N R → State N R → State N R
    step (listed datasets) s = record s { datasets = datasets }
    step (saving id) s = record s { saving_id = id }
    step (select id) s = record s { selected_id = some id }
    step (previewed p) s = record s { preview = some p }
    step (preview_failed text) s = record s { preview_error = some text; preview = none }
    step preview_settled s = record s { previewing_id = none }
    step e s = on_selected e (selected_dataset s) s

    unfoldable pub run : List (Event N R) → State N R → State N R
    run [] s = s
    run (e ∷ es) s = run es (step e s)

    -- The update that submitting asks for: of which version, with which form.
    unfoldable pub sent_for : Option (Dataset N) → State N R → Option (Text × DatasetFormValues)
    sent_for none s = none
    sent_for (some d) s = if can_save s d then some (d.id, s.edit_form) else none

    unfoldable pub sent : State N R → Option (Text × DatasetFormValues)
    sent s = sent_for (selected_dataset s) s
