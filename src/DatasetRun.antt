-- ===== src/DatasetRun.antt =====
-- frontend/src/evaluations/scoringMetrics.ts, frontend/src/components/runs/DatasetRunLauncher.tsx and
-- the form of a dataset run in frontend/src/features/runs/RunsRoute.tsx. `Number` and the truth of a
-- number are parameters.
pub mod Schema
pub mod Queue
pub mod Launch
pub mod Asked
pub mod Requests
mod Examples
use llm_evaluation.Prelude.{
  ◌≡◌, Bool, true, false, not, ◌&&◌, ◌||◌, if◌then◌else◌, Option, none, some, List, [], ◌∷◌, keep,
  any, find, or_else, is_some, Text, codes, text_eq, truthy, non_empty, trim,
}
use llm_evaluation.Types.Endpoints.{Endpoint, EndpointStatus}

pub data DatasetMetricId : Type 0 where
  default exact_match normalized_exact_match token_f1 bleu rouge_l llm_judge : DatasetMetricId

pub record DatasetJudgeConfiguration : Type 0 where
  pub judge_endpoint_id : Text
  pub system_message : Text

-- A rule of a metric that needs no judge is its name; the judged one has its endpoint and message.
pub data DatasetScoringRule : Type 0 where
  by_exact_match by_normalized_exact_match by_token_f1 by_bleu by_rouge_l : DatasetScoringRule
  by_llm_judge : Text → Text → DatasetScoringRule

pub dataset_scoring_rule_for :
    DatasetMetricId → Option DatasetJudgeConfiguration → Option DatasetScoringRule
dataset_scoring_rule_for default judge = none
dataset_scoring_rule_for exact_match judge = some by_exact_match
dataset_scoring_rule_for normalized_exact_match judge = some by_normalized_exact_match
dataset_scoring_rule_for token_f1 judge = some by_token_f1
dataset_scoring_rule_for bleu judge = some by_bleu
dataset_scoring_rule_for rouge_l judge = some by_rouge_l
dataset_scoring_rule_for llm_judge none = none
dataset_scoring_rule_for llm_judge (some judge) =
    let endpoint = trim judge.judge_endpoint_id in
    let message = trim judge.system_message in
    if truthy endpoint && truthy message then some (by_llm_judge endpoint message) else none

pub record DatasetRunForm : Type 0 where
  pub dataset_version_id : Text
  pub prompt_package_id : Text
  pub input_field : Text
  pub reference_field : Text
  pub sample_limit : Text
  pub model_endpoint_id : Text
  pub metric : DatasetMetricId
  pub judge_endpoint_id : Text
  pub judge_system_message : Text

abbrev pub initial_dataset_run : DatasetRunForm
initial_dataset_run = record {
  dataset_version_id = [];
  prompt_package_id = [];
  input_field = [];
  reference_field = [];
  sample_limit = codes "100";
  model_endpoint_id = [];
  metric = default;
  judge_endpoint_id = [];
  judge_system_message = [];
}

abbrev pub is_llm_judge : DatasetMetricId → Bool
is_llm_judge llm_judge = true
is_llm_judge _ = false

pub change_metric : DatasetMetricId → DatasetRunForm → DatasetRunForm
change_metric metric form = record form {
  metric = metric;
  judge_endpoint_id = if is_llm_judge metric then form.judge_endpoint_id else [];
  judge_system_message = if is_llm_judge metric then form.judge_system_message else [];
}

abbrev pub is_available : EndpointStatus → Bool
is_available EndpointStatus.available = true
is_available _ = false

module _ {N J : Type 0} where
  pub available_judge_endpoints : List (Endpoint N J) → DatasetRunForm → List (Endpoint N J)
  available_judge_endpoints endpoints form =
      keep (λ e. is_available e.status && not (text_eq e.id form.model_endpoint_id)) endpoints

  pub judge_configuration_missing : List (Endpoint N J) → DatasetRunForm → Bool
  judge_configuration_missing endpoints form =
      is_llm_judge form.metric
      && (not (truthy form.judge_endpoint_id)
          || text_eq form.judge_endpoint_id form.model_endpoint_id
          || not (
              any (λ e. text_eq e.id form.judge_endpoint_id)
                (available_judge_endpoints endpoints form))
          || not (truthy (trim form.judge_system_message)))

  -- The reasons that switch the queue button off, from the state of the schema and the form.
  pub blocked : Bool → Option Text → Bool → List (Endpoint N J) → DatasetRunForm → Bool
  blocked fields_loading fields_error fields_collide endpoints form =
      fields_loading
      || truthy (or_else fields_error [])
      || fields_collide
      || not (truthy form.model_endpoint_id)
      || not (truthy form.dataset_version_id)
      || not (truthy form.input_field) && not (truthy form.prompt_package_id)
      || not (truthy form.reference_field)
      || judge_configuration_missing endpoints form

pub collide : DatasetRunForm → Bool
collide form = truthy form.input_field && text_eq form.input_field form.reference_field

pub record DatasetRunPayload (N : Type 0) : Type 0 where
  pub model_endpoint_id : Text
  pub dataset_version_id : Text
  pub prompt_package_id : Option Text
  pub input_field : Option Text
  pub reference_field : Text
  pub sample_limit : N
  pub scoring_rule : Option DatasetScoringRule

module _ {N : Type 0} (number : Text → N) (is_truthy : N → Bool) (hundred : N) where
  pub dataset_run_payload : DatasetRunForm → DatasetRunPayload N
  dataset_run_payload form = record {
    model_endpoint_id = form.model_endpoint_id;
    dataset_version_id = form.dataset_version_id;
    prompt_package_id = non_empty form.prompt_package_id;
    input_field = if truthy form.prompt_package_id then none else some form.input_field;
    reference_field = form.reference_field;
    sample_limit =
        let limit = number form.sample_limit in if is_truthy limit then limit else hundred;
    scoring_rule = dataset_scoring_rule_for form.metric (
        some (record {
          judge_endpoint_id = form.judge_endpoint_id;
          system_message = form.judge_system_message;
        }));
  }
