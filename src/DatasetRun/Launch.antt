-- ===== src/DatasetRun/Launch.antt =====
-- The launcher of a dataset run in frontend/src/features/runs/RunsRoute.tsx: its form, the effect that
-- asks for the fields of the chosen dataset, and the check before a run. Each run of the effect has a
-- number, and its answer or failure comes as an event with this number; the clean-up of an effect is
-- that its number is over. `P` is what the check says, and `t` gives two messages of a locale.
use llm_evaluation.Prelude.{
  ℕ, suc, Bool, true, false, not, ◌&&◌, ◌||◌, ◌==◌, if◌then◌else◌, Option, none, some, List, [],
  ◌∷◌, find, Text, text_eq, opt_eq, truthy,
}
use llm_evaluation.Catalog.{Locale}
use llm_evaluation.Copy.{locale_index}
use llm_evaluation.Types.Datasets.{Dataset}
use llm_evaluation.DatasetRun.{DatasetRunForm, initial_dataset_run}
use llm_evaluation.DatasetRun.Schema.{SchemaChoice, choose_fields, fill_form}

-- What the effect depends on. A dataset that is not in the list declares nothing.
pub record Deps : Type 0 where
  pub dataset_version_id : Text
  pub schema_request : ℕ
  pub datasets_loaded : Bool
  pub declared : Option (Option Text × Option Text)
  pub locale : Locale

pub record Launch (N P : Type 0) : Type 0 where
  pub datasets : List (Dataset N)
  pub datasets_loaded : Bool
  pub form : DatasetRunForm
  pub fields : List Text
  pub fields_error : Option Text
  pub fields_loading : Bool
  pub schema_request : ℕ
  pub launch_preflight : Option P
  pub locale : Locale
  pub generation : ℕ
  pub deps : Deps

pub data Event (N P : Type 0) : Type 0 where
  listed : List (Dataset N) → Event N P
  handed_off : Text → Event N P
  change_form : DatasetRunForm → Event N P
  retry_schema : Event N P
  relocated : Locale → Event N P
  answered : ℕ → List Text → Event N P
  failed : ℕ → Text → Event N P
  preflight preflight_failed : Event N P
  queued : Text → Event N P
  preflighted : P → Event N P

abbrev pub no_deps : Locale → Deps
no_deps locale = record {
  dataset_version_id = [];
  schema_request = 0;
  datasets_loaded = false;
  declared = none;
  locale = locale;
}

abbrev pub initial_launch : {N P : Type 0} → Locale → Launch N P
initial_launch locale = record {
  datasets = [];
  datasets_loaded = false;
  form = initial_dataset_run;
  fields = [];
  fields_error = none;
  fields_loading = false;
  schema_request = 0;
  launch_preflight = none;
  locale = locale;
  generation = 0;
  deps = no_deps locale;
}

-- Whether the effect makes a request.
abbrev pub makes_request : Deps → Bool
makes_request d = truthy d.dataset_version_id && d.datasets_loaded

abbrev pub declared_input : Option (Option Text × Option Text) → Option Text
declared_input none = none
declared_input (some (input, reference)) = input

abbrev pub declared_reference : Option (Option Text × Option Text) → Option Text
declared_reference none = none
declared_reference (some (input, reference)) = reference

unfoldable pub bool_eq : Bool → Bool → Bool
bool_eq true b = b
bool_eq false b = not b

unfoldable pub declared_eq : (a b : Option (Option Text × Option Text)) → Bool
declared_eq none none = true
declared_eq (some (i, r)) (some (j, q)) = opt_eq i j && opt_eq r q
declared_eq _ _ = false

unfoldable pub deps_eq : Deps → Deps → Bool
deps_eq a b =
    text_eq a.dataset_version_id b.dataset_version_id
    && a.schema_request == b.schema_request
    && bool_eq a.datasets_loaded b.datasets_loaded
    && declared_eq a.declared b.declared
    && locale_index a.locale == locale_index b.locale

-- The fields of the form are emptied, if it is for this dataset.
unfoldable pub clear_fields : Text → DatasetRunForm → DatasetRunForm
clear_fields dataset form =
    if text_eq form.dataset_version_id dataset
    then record form { input_field = []; reference_field = [] }
    else form

unfoldable pub hand_off : Text → DatasetRunForm → DatasetRunForm
hand_off dataset form =
    if not (truthy dataset) || text_eq form.dataset_version_id dataset
    then form
    else record form { dataset_version_id = dataset; input_field = []; reference_field = [] }

module _ (schema_empty reference_required : Locale → Text) where
  unfoldable pub chosen : List Text → Deps → SchemaChoice
  chosen preview d =
      choose_fields (schema_empty d.locale) (reference_required d.locale)
        (declared_input d.declared) (declared_reference d.declared) preview

module _ {N : Type 0} where
  abbrev pub declared_of : Option (Dataset N) → Option (Option Text × Option Text)
  declared_of none = none
  declared_of (some d) = some (d.input_field, d.reference_field)

  module _ {P : Type 0} where
    unfoldable pub deps_of : Launch N P → Deps
    deps_of s = record {
      dataset_version_id = s.form.dataset_version_id;
      schema_request = s.schema_request;
      datasets_loaded = s.datasets_loaded;
      declared = declared_of (find (λ d. text_eq d.id s.form.dataset_version_id) s.datasets);
      locale = s.locale;
    }

    -- The effect, up to its request.
    unfoldable pub run_effect : Deps → Launch N P → Launch N P
    run_effect d s = record s {
      fields = [];
      fields_error = none;
      fields_loading = makes_request d;
      generation = suc s.generation;
      deps = d;
    }

    unfoldable pub commit_launch : Launch N P → Launch N P
    commit_launch s = if deps_eq (deps_of s) s.deps then s else run_effect (deps_of s) s

    -- The answer counts while its effect is not disposed of.
    abbrev pub is_current : ℕ → Launch N P → Bool
    is_current generation s = generation == s.generation && makes_request s.deps

    unfoldable pub take_fields : SchemaChoice → Launch N P → Launch N P
    take_fields choice s = record s {
      fields = choice.fields;
      fields_error = choice.error;
      fields_loading = false;
      form = fill_form s.deps.dataset_version_id choice s.form;
    }

    module _ (schema_empty reference_required : Locale → Text) where
      unfoldable pub handle_launch : Event N P → Launch N P → Launch N P
      handle_launch (listed datasets) s = record s { datasets = datasets; datasets_loaded = true }
      handle_launch (handed_off dataset) s = record s { form = hand_off dataset s.form }
      handle_launch (change_form form) s = record s { form = form; launch_preflight = none }
      handle_launch retry_schema s = record s {
        schema_request = suc s.schema_request;
        launch_preflight = none;
      }
      handle_launch (relocated locale) s = record s { locale = locale }
      handle_launch (answered generation preview) s =
          if is_current generation s
          then take_fields (chosen schema_empty reference_required preview s.deps) s
          else s
      handle_launch (failed generation message) s =
          if is_current generation s
          then record s {
            fields_error = some message;
            fields_loading = false;
            form = clear_fields s.deps.dataset_version_id s.form;
          }
          else s
      handle_launch preflight s = record s { launch_preflight = none }
      handle_launch preflight_failed s = s
      handle_launch (preflighted result) s = record s { launch_preflight = some result }
      handle_launch (queued endpoint) s = record s {
        form = record initial_dataset_run { model_endpoint_id = endpoint };
        launch_preflight = none;
      }

      unfoldable pub step_launch : Event N P → Launch N P → Launch N P
      step_launch e s = commit_launch (handle_launch e s)

      unfoldable pub run_launch : List (Event N P) → Launch N P → Launch N P
      run_launch [] s = s
      run_launch (e ∷ es) s = run_launch es (step_launch e s)
