-- ===== src/Scatter.antt =====
-- frontend/src/components/analysis/EvidenceScatter.tsx: the filters, the choice of runs, the query and
-- the requests of the evidence scatter. `number` reads a finite number of a text; the messages of the
-- locale are parameters.
pub mod Selection
pub mod Requests
mod Examples
use llm_evaluation.Prelude.{
  ℕ, ◌+◌, Bool, true, false, not, ◌==◌, if◌then◌else◌, Option, none, some, List, [], ◌∷◌, ◌++◌, map,
  keep, length, or_else, or_option, Text, codes, text_eq, includes, truthy, non_empty, trim,
}
use llm_evaluation.Prelude.Distinct.{distinct}
use llm_evaluation.Types.Datasets.{EvaluationType}
use llm_evaluation.Types.Analytics.{ScatterQuery, ScatterResponse}
use llm_evaluation.Types.Runs.{EvaluationRun}

pub record ScatterFilterState : Type 0 where
  pub x_axis : Text
  pub y_axis : Text
  pub date_from : Text
  pub date_to : Text
  pub model_endpoint_id : Text
  pub dataset : Text
  pub status : Text
  pub capability : Text
  pub language : Text
  pub evaluation_type : Option EvaluationType
  pub min_score : Text
  pub max_score : Text
  pub min_accuracy : Text
  pub max_accuracy : Text
  pub min_latency : Text
  pub max_latency : Text
  pub min_cost : Text
  pub max_cost : Text

abbrev pub default_filters : ScatterFilterState
default_filters = record {
  x_axis = codes "score";
  y_axis = codes "average_latency_ms";
  date_from = [];
  date_to = [];
  model_endpoint_id = [];
  dataset = [];
  status = [];
  capability = [];
  language = [];
  evaluation_type = none;
  min_score = [];
  max_score = [];
  min_accuracy = [];
  max_accuracy = [];
  min_latency = [];
  max_latency = [];
  min_cost = [];
  max_cost = [];
}

pub inclusive_date : Text → Bool → Option Text
inclusive_date [] end_of_day = none
inclusive_date (c ∷ value) end_of_day = some (
    c ∷ value
    ++ codes "T"
    ++ (if end_of_day then codes "23:59:59.999" else codes "00:00:00.000")
    ++ codes "Z")

abbrev pub status_list : Text → Option (List Text)
status_list [] = none
status_list (c ∷ status) = some ((c ∷ status) ∷ [])

module _ {N : Type 0} (number : Text → Option N) where
  pub optional_number : Text → Option N
  optional_number value = if truthy (trim value) then number value else none

  module _ (five_hundred : N) where
    pub build_query : ScatterFilterState → Option (List Text) → ScatterQuery N
    build_query f selected_run_ids = record {
      x_axis = some f.x_axis;
      y_axis = some f.y_axis;
      run_ids = selected_run_ids;
      date_from = inclusive_date f.date_from false;
      date_to = inclusive_date f.date_to true;
      model_endpoint_id = non_empty f.model_endpoint_id;
      dataset = non_empty f.dataset;
      statuses = status_list f.status;
      capability = non_empty f.capability;
      language = non_empty f.language;
      evaluation_type = f.evaluation_type;
      min_score = optional_number f.min_score;
      max_score = optional_number f.max_score;
      min_accuracy = optional_number f.min_accuracy;
      max_accuracy = optional_number f.max_accuracy;
      min_latency_ms = optional_number f.min_latency;
      max_latency_ms = optional_number f.max_latency;
      min_cost = optional_number f.min_cost;
      max_cost = optional_number f.max_cost;
      max_points = some five_hundred;
    }

-- The identifiers of `runOptions`: the runs of the page, then those that the first answer adds.
pub option_ids : {N J : Type 0} → List (EvaluationRun N J) → Option (ScatterResponse N) → List Text
option_ids runs none = distinct (map (λ run. run.id) runs)
option_ids runs (some catalog) = distinct (map (λ run. run.id) runs ++ catalog.selected_run_ids)

-- `toggleRun` on the identifiers of the options; `none` selects all runs.
pub toggle_run : List Text → Text → Bool → Option (List Text) → Option (List Text)
toggle_run options run_id checked selected =
    let current = or_else selected options in
    let next =
      if checked
      then distinct (current ++ run_id ∷ [])
      else keep (λ id. not (text_eq id run_id)) current in
    if length next == length options then none else some next

-- The box of a run.
abbrev pub is_checked : Option (List Text) → Text → Bool
is_checked none run_id = true
is_checked (some ids) run_id = includes ids run_id

pub record ScatterState (N : Type 0) : Type 0 where
  pub filters : ScatterFilterState
  pub selected_run_ids : Option (List Text)
  pub response : Option (ScatterResponse N)
  pub catalog_response : Option (ScatterResponse N)
  pub loading : Bool
  pub error : Option Text
  pub latest_request : ℕ
  pub last_query : ScatterQuery N

module _ {N : Type 0} where
  -- `queryScatter` up to its request, and behind its answer or its failure.
  pub query_scatter : ScatterQuery N → ScatterState N → ScatterState N
  query_scatter query s = record s {
    latest_request = s.latest_request + 1;
    last_query = query;
    loading = true;
    error = none;
  }

  pub answered : ℕ → ScatterResponse N → ScatterState N → ScatterState N
  answered request next s =
      if request == s.latest_request
      then record s {
        response = some next;
        catalog_response = or_option s.catalog_response (some next);
        loading = false;
      }
      else s

  pub failed : ℕ → Text → ScatterState N → ScatterState N
  failed request load_error s =
      if request == s.latest_request
      then record s { response = none; error = some load_error; loading = false }
      else s

  module _ (number : Text → Option N) (five_hundred : N) where
    pub submit : Text → ScatterState N → ScatterState N
    submit choose_run s = elim s.selected_run_ids [
      | some [] ↦ record s { response = none; error = some choose_run }
      | ids ↦ query_scatter (build_query number five_hundred s.filters s.selected_run_ids) s
    ]

    pub reset : ScatterState N → ScatterState N
    reset s =
        query_scatter (build_query number five_hundred default_filters none)
          (record s { filters = default_filters; selected_run_ids = none })
