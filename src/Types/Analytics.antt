-- ===== src/Types/Analytics.antt =====
-- The queries and results of frontend/src/features/analytics/types.ts.
use llm_evaluation.Prelude.{ℕ, Option, List, Text}
use llm_evaluation.Types.Datasets.{EvaluationType}

pub data Axis : Type 0 where
  x_axis y_axis : Axis

pub data Direction : Type 0 where
  asc desc : Direction

pub record ScatterQuery (N : Type 0) : Type 0 where
  pub x_axis : Option Text
  pub y_axis : Option Text
  pub run_ids : Option (List Text)
  pub date_from : Option Text
  pub date_to : Option Text
  pub model_endpoint_id : Option Text
  pub dataset : Option Text
  pub statuses : Option (List Text)
  pub capability : Option Text
  pub language : Option Text
  pub evaluation_type : Option EvaluationType
  pub min_score : Option N
  pub max_score : Option N
  pub min_accuracy : Option N
  pub max_accuracy : Option N
  pub min_latency_ms : Option N
  pub max_latency_ms : Option N
  pub min_cost : Option N
  pub max_cost : Option N
  pub max_points : Option N

pub record ScatterAxis : Type 0 where
  pub metric_name : Text
  pub label : Text
  pub unit : Text
  pub profile : Text

pub record ScatterPoint (N : Type 0) : Type 0 where
  pub run_id : Text
  pub display_name : Text
  pub model_endpoint_id : Text
  pub model_name : Text
  pub dataset : Text
  pub benchmark_id : Text
  pub benchmark_version : Text
  pub status : Text
  pub created_at : Text
  pub capabilities : List Text
  pub languages : List Text
  pub evaluation_type : EvaluationType
  pub x : N
  pub y : N
  pub x_metric : Text
  pub y_metric : Text
  pub x_availability_reason : Option Text
  pub y_availability_reason : Option Text

pub record ScatterResponse (N : Type 0) : Type 0 where
  pub x_axis : ScatterAxis
  pub y_axis : ScatterAxis
  pub selected_run_ids : List Text
  pub eligible_run_count : N
  pub plottable_count : N
  pub plotted_count : N
  pub unavailable_count : N
  pub unavailable_by_axis : record { x : N; y : N; both : N }
  pub unavailable_reasons : List (record { axis : Axis; reason : Text; count : N })
  pub truncated_count : N
  pub max_points : N
  pub points : List (ScatterPoint N)

pub record LeaderboardQuery : Type 0 where
  pub dataset : Option Text
  pub model_endpoint_id : Option Text
  pub statuses : Option (List Text)
  pub created_from : Option Text
  pub created_to : Option Text
  pub capability : Option Text
  pub language : Option Text
  pub evaluation_type : Option EvaluationType
  pub available_metric : Option Text
  pub sort : Option Text
  pub direction : Option Direction
  pub page : Option ℕ
  pub page_size : Option ℕ
