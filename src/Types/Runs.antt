-- ===== src/Types/Runs.antt =====
-- The records of frontend/src/features/runs/types.ts that the modelled code reads.
use llm_evaluation.Prelude.{Bool, Option, List, Text}

pub data HumanReviewStatus : Type 0 where
  unreviewed reviewed adjudicated : HumanReviewStatus

pub record EvaluationRun (N J : Type 0) : Type 0 where
  pub id : Text
  pub display_name : Text
  pub model_endpoint_id : Text
  pub created_by : Option Text
  pub max_concurrency : Option N
  pub benchmark_id : Text
  pub benchmark_version : Text
  pub configuration_snapshot : Option J
  pub status : Text
  pub total_samples : N
  pub completed_samples : N
  pub successful_samples : N
  pub failed_samples : N
  pub created_at : Text
  pub started_at : Option Text
  pub completed_at : Option Text
  pub archived_at : Option Text

pub record SampleAttempt (N J : Type 0) : Type 0 where
  pub id : Text
  pub sample_id : Text
  pub attempt_number : N
  pub input_snapshot : J
  pub reference_snapshot : J
  pub request_snapshot : Option J
  pub raw_response : Option Text
  pub parsed_prediction : Option Text
  pub metric_evidence : Option (Option J)
  pub score : Option N
  pub latency_ms : Option N
  pub input_tokens : Option N
  pub output_tokens : Option N
  pub estimated_cost : Option N
  pub error_type : Option Text
  pub error_message : Option Text
  pub status : Text
  pub created_at : Text
  pub completed_at : Option Text
  pub sample_metadata : List (Text × Text)
  pub judge_disagreement : Bool
  pub human_review_status : HumanReviewStatus

pub record RunLogEntry (J : Type 0) : Type 0 where
  pub timestamp : Text
  pub level : Text
  pub event : Text
  pub message : Text
  pub task_id : Option Text
  pub sample_attempt_id : Option Text
  pub details : J
