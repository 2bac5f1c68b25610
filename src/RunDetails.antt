-- ===== src/RunDetails.antt =====
-- frontend/src/features/runs/RunsRoute.tsx: the selected run, what is shown of it, and the answers of
-- the service as events, in the order in which they come. The types of answers that are only stored
-- are parameters.
pub mod Attempts
pub mod Late
mod Examples
use llm_evaluation.Prelude.{
  Bool, true, false, not, Option, none, some, List, [], ◌∷◌, ◌++◌, keep, any, Text, text_eq,
}
use llm_evaluation.Types.Runs.{SampleAttempt, RunLogEntry}

-- `RunSummary`, `AggregateMetric`, `Report`, `Review`, `ReviewAgreement`, `JudgeAssessment` and
-- `JudgeAgreement`.
pub record Kinds : Type 1 where
  pub Summary : Type 0
  pub Metric : Type 0
  pub Report : Type 0
  pub Review : Type 0
  pub ReviewAgreement : Type 0
  pub Assessment : Type 0
  pub JudgeAgreement : Type 0

-- What the five requests of `selectRun` bring.
pub record RunAnswer (N J : Type 0) (K : Kinds) : Type 0 where
  pub attempts : List (SampleAttempt N J)
  pub summary : K.Summary
  pub metrics : List K.Metric
  pub reports : List K.Report
  pub logs : List (RunLogEntry J)

-- What the four requests of `openReview` bring.
pub record ReviewAnswer (K : Kinds) : Type 0 where
  pub reviews : List K.Review
  pub agreement : K.ReviewAgreement
  pub assessments : List K.Assessment
  pub judge_agreement : K.JudgeAgreement

pub record RunsState (N J : Type 0) (K : Kinds) : Type 0 where
  pub selected_run : Option Text
  pub selected_attempt : Option (SampleAttempt N J)
  pub attempts : List (SampleAttempt N J)
  pub run_summary : Option K.Summary
  pub run_metrics : List K.Metric
  pub reports : List K.Report
  pub run_logs : List (RunLogEntry J)
  pub reviews : List K.Review
  pub review_agreement : Option K.ReviewAgreement
  pub judge_assessments : List K.Assessment
  pub judge_agreement : Option K.JudgeAgreement

-- The answer of `loadMoreAttempts`: the attempts that are not in the list yet go behind it.
unfoldable pub add_attempts :
    {N J : Type 0} → List (SampleAttempt N J) → List (SampleAttempt N J) → List (SampleAttempt N J)
add_attempts next current =
    current ++ keep (λ item. not (any (λ existing. text_eq existing.id item.id) current)) next

module _ {N J : Type 0} {K : Kinds} where
  -- `selectRun` up to its requests, and behind their answers.
  pub select_run : Text → RunsState N J K → RunsState N J K
  select_run run_id s = record {
    selected_run = some run_id;
    selected_attempt = none;
    attempts = [];
    run_summary = none;
    run_metrics = [];
    reports = [];
    run_logs = [];
    reviews = [];
    review_agreement = none;
    judge_assessments = [];
    judge_agreement = none;
  }

  pub run_answered : RunAnswer N J K → RunsState N J K → RunsState N J K
  run_answered a s = record s {
    attempts = a.attempts;
    run_summary = some a.summary;
    run_metrics = a.metrics;
    reports = a.reports;
    run_logs = a.logs;
  }

  pub more_answered : List (SampleAttempt N J) → RunsState N J K → RunsState N J K
  more_answered next s = record s { attempts = add_attempts next s.attempts }

  -- `openReview` up to its requests, and behind their answers.
  pub open_review : SampleAttempt N J → RunsState N J K → RunsState N J K
  open_review attempt s = record s { selected_attempt = some attempt }

  pub review_answered : ReviewAnswer K → RunsState N J K → RunsState N J K
  review_answered a s = record s {
    reviews = a.reviews;
    review_agreement = some a.agreement;
    judge_assessments = a.assessments;
    judge_agreement = some a.judge_agreement;
  }
