-- ===== src/Datasets.antt =====
-- frontend/src/features/datasets/DatasetsRoute.tsx, components/pages/CatalogPages.tsx and
-- components/datasets: the form of a dataset version, the request of it, and what prepares a version.
pub mod Values
pub mod Page
pub mod Previews
pub mod Edits
mod Examples
use llm_evaluation.Prelude.{
  Bool, true, false, not, ◌&&◌, ◌||◌, if◌then◌else◌, Option, none, some, List, [], ◌∷◌, map,
  or_else, truthy, non_empty, Text, codes, text_eq, includes,
}
use llm_evaluation.Types.Datasets.{Dataset, EvaluationType}

-- DatasetRegistrationFormValues and DatasetEditFormValues have the same fields.
pub record DatasetFormValues : Type 0 where
  pub checksum : Text
  pub credential_binding_id : Text
  pub dataset_id : Text
  pub input_field : Text
  pub license_text : Text
  pub reference_field : Text
  pub revision : Text
  pub source_url : Text
  pub version : Text
  pub capabilities : List Text
  pub languages : List Text
  pub evaluation_type : EvaluationType

abbrev pub empty_dataset_edit_form : DatasetFormValues
empty_dataset_edit_form = record {
  checksum = [];
  credential_binding_id = [];
  dataset_id = [];
  input_field = [];
  license_text = [];
  reference_field = [];
  revision = [];
  source_url = [];
  version = [];
  capabilities = [];
  languages = [];
  evaluation_type = EvaluationType.custom;
}

abbrev pub initial_dataset : DatasetFormValues
initial_dataset = record empty_dataset_edit_form { version = codes "1"; revision = codes "main" }

-- The body of the requests that create and update a version.
pub record DatasetPayload : Type 0 where
  pub checksum : Option Text
  pub credential_binding_id : Option Text
  pub dataset_id : Text
  pub input_field : Option Text
  pub license_text : Option Text
  pub reference_field : Option Text
  pub revision : Text
  pub source_url : Option Text
  pub version : Text
  pub capabilities : List Text
  pub languages : List Text
  pub evaluation_type : EvaluationType

unfoldable pub dataset_payload : DatasetFormValues → DatasetPayload
dataset_payload form = record {
  checksum = non_empty form.checksum;
  credential_binding_id = non_empty form.credential_binding_id;
  dataset_id = form.dataset_id;
  input_field = non_empty form.input_field;
  license_text = non_empty form.license_text;
  reference_field = non_empty form.reference_field;
  revision = form.revision;
  source_url = non_empty form.source_url;
  version = form.version;
  capabilities = form.capabilities;
  languages = form.languages;
  evaluation_type = form.evaluation_type;
}

-- What the button of a version does, and what it says.
pub data Preparation : Type 0 where
  accept_license download : Preparation

pub data PrepareLabel : Type 0 where
  accept_license_label retry_download download_and_verify : PrepareLabel

abbrev pub active_dataset_statuses : List Text
active_dataset_statuses = map codes ("downloading" ∷ "verifying" ∷ "preparing" ∷ "removing" ∷ [])

module _ {N : Type 0} where
  unfoldable pub dataset_edit_form : Dataset N → DatasetFormValues
  dataset_edit_form dataset = record {
    checksum = or_else dataset.checksum [];
    credential_binding_id = or_else dataset.credential_binding_id [];
    dataset_id = dataset.dataset_id;
    input_field = or_else dataset.input_field [];
    license_text = or_else dataset.license_text [];
    reference_field = or_else dataset.reference_field [];
    revision = dataset.revision;
    source_url = or_else dataset.source_url [];
    version = dataset.version;
    capabilities = dataset.capabilities;
    languages = dataset.languages;
    evaluation_type = dataset.evaluation_type;
  }

  unfoldable pub needs_license : Dataset N → Bool
  needs_license dataset =
      truthy (or_else dataset.license_text [])
      && not (truthy (or_else dataset.license_accepted_at []))

  unfoldable pub prepare_dataset : Dataset N → Preparation
  prepare_dataset dataset = if needs_license dataset then accept_license else download

  unfoldable pub dataset_prepare_label : Dataset N → PrepareLabel
  dataset_prepare_label dataset =
      if needs_license dataset
      then accept_license_label
      else (if text_eq dataset.status (codes "waiting") || text_eq dataset.status (codes "failed")
          then retry_download
          else download_and_verify)

  unfoldable pub is_dataset_active : Dataset N → Bool
  is_dataset_active dataset = includes active_dataset_statuses dataset.status
