-- ===== src/Dashboard/Examples.antt =====
-- The dashboard at concrete runs, and an order of texts that meets the assumptions on `localeCompare`.
use Prim.Native.Nat.{Ordering, compare}
use llm_evaluation.Prelude.{
  ℕ, ◌≡◌, ◌≢◌, ◌↔◌, refl, Option, none, some, List, [], ◌∷◌, map, Text, codes, text_eq, includes,
  trim, keep, All, arith,
}
use llm_evaluation.Prelude.Sorting.{sort, Ordered}
use llm_evaluation.Prelude.Grouping.{rows_of, group_from, place, push_group}
use llm_evaluation.Types.Runs.{EvaluationRun}
use llm_evaluation.Dashboard.{
  AnalyticsRow, DashboardAnalyticsPoint, Collation, build_recent_run_rows,
  build_dashboard_analytics, group_costs_by_currency, compare_runs, with_index, is_active,
  timestamp, recent_row, find_last, first_text, benchmark_label, point_for, points_of,
  compare_points, cost_key, normalized_currency, or_unspecified,
}
use llm_evaluation.Dashboard.Recent.{IsRecent, build_recent_run_rows-IsRecent}
use llm_evaluation.Dashboard.Points.{IsTrend, build_dashboard_analytics-IsTrend}
use llm_evaluation.Dashboard.Costs.{is_priced_in, group_costs_by_currency-partition}

program : Unit {0}
unfolding text_eq includes trim sort build_recent_run_rows build_dashboard_analytics
    group_costs_by_currency compare_runs with_index is_active timestamp recent_row find_last
    first_text benchmark_label point_for points_of compare_points cost_key normalized_currency
    or_unspecified rows_of group_from place push_group
program = tt

-- By the code units.
code_order : Text → Text → Ordering
code_order [] [] = Ordering.eq
code_order [] (b ∷ t) = Ordering.lt
code_order (a ∷ s) [] = Ordering.gt
code_order (a ∷ s) (b ∷ t) = elim (compare a b) [
  | Ordering.lt ↦ Ordering.lt
  | Ordering.eq ↦ code_order s t
  | Ordering.gt ↦ Ordering.gt
]

code_order-flip : (s t : Text) → (code_order s t ≡ Ordering.lt) ↔ (code_order t s ≡ Ordering.gt)
unfolding code_order
code_order-flip [] [] = ground arith
code_order-flip [] (b ∷ t) = ground arith
code_order-flip (a ∷ s) [] = ground arith
code_order-flip (a ∷ s) (b ∷ t) = ground (arith, code_order-flip s t)

code_order-chain :
    (s t u : Text)
    → code_order s t ≢ Ordering.gt
    → code_order t u ≢ Ordering.gt
    → code_order s u ≢ Ordering.gt
unfolding code_order
code_order-chain [] t [] h k = ground arith
code_order-chain [] t (c ∷ u) h k = ground arith
code_order-chain (a ∷ s) [] u h k = ground arith
code_order-chain (a ∷ s) (b ∷ t) [] h k = ground arith
code_order-chain (a ∷ s) (b ∷ t) (c ∷ u) h k = ground (arith, code_order-chain s t u)

code_order-Collation : Collation code_order
code_order-Collation = record { flip = code_order-flip; chain = code_order-chain }

abbrev run_of : Text → Text → Text → EvaluationRun ℕ ℕ
run_of id status at = record {
  id = id;
  display_name = id;
  model_endpoint_id = codes "e1";
  created_by = none;
  max_concurrency = none;
  benchmark_id = codes "b";
  benchmark_version = codes "1";
  configuration_snapshot = none;
  status = status;
  total_samples = 1;
  completed_samples = 0;
  successful_samples = 0;
  failed_samples = 0;
  created_at = at;
  started_at = none;
  completed_at = none;
  archived_at = none;
}

abbrev row_for : Text → AnalyticsRow ℕ
row_for id = record {
  run_id = id;
  model_endpoint_id = codes "e1";
  model_name = codes " m ";
  benchmark_id = codes "b";
  benchmark_version = [];
  accuracy = some 1;
  success_rate = none;
  error_rate = none;
  average_latency_ms = none;
  estimated_cost = some 2;
  currency = some (codes " usd");
  required_capabilities = [];
  sample_count = 1;
  confidence_interval = none;
}

abbrev three_runs : List (EvaluationRun ℕ ℕ)
three_runs =
    run_of (codes "old") (codes "completed") (codes "2026-01")
    ∷ run_of (codes "new") (codes "failed") (codes "2026-03")
    ∷ run_of (codes "live") (codes "running") (codes "2026-02")
    ∷ []

abbrev two_rows : Option (List (AnalyticsRow ℕ))
two_rows = some (row_for (codes "new") ∷ row_for (codes "gone") ∷ [])

-- The active run comes first, then the newest; the limit drops the oldest.
recent_ids :
    map (λ r. r.run.id) (build_recent_run_rows code_order three_runs [] two_rows 2)
    ≡ codes "live" ∷ codes "new" ∷ []
unfolding program code_order
recent_ids = refl

point_ids :
    map (λ p. p.run_id) (build_dashboard_analytics code_order three_runs two_rows)
    ≡ codes "new" ∷ []
unfolding program code_order
point_ids = refl

build_recent_run_rows-IsRecent_example :
    IsRecent code_order three_runs [] two_rows 2
      (build_recent_run_rows code_order three_runs [] two_rows 2)
build_recent_run_rows-IsRecent_example =
    build_recent_run_rows-IsRecent code_order-Collation three_runs [] two_rows 2

build_dashboard_analytics-IsTrend_example :
    IsTrend code_order three_runs two_rows
      (build_dashboard_analytics code_order three_runs two_rows)
build_dashboard_analytics-IsTrend_example =
    build_dashboard_analytics-IsTrend code_order-Collation three_runs two_rows

abbrev points : List (DashboardAnalyticsPoint ℕ)
points = build_dashboard_analytics code_order three_runs two_rows

group_costs_by_currency-partition_example :
    let groups = group_costs_by_currency (λ s. s) points in
    ((currency : Text)
      → rows_of text_eq currency groups ≡ keep (is_priced_in (λ s. s) currency) points)
    × Ordered (λ g h. g.0 ≢ h.0) groups
    × All (λ g. g.1 ≢ []) groups
group_costs_by_currency-partition_example = group_costs_by_currency-partition (λ s. s) points
