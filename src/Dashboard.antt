-- ===== src/Dashboard.antt =====
-- frontend/src/dashboard/analytics.ts: the runs and points that the dashboard shows. `N` stands for
-- the numbers that are carried along and `J` for JSON values. `localeCompare` and `toUpperCase` are
-- the parameters `collate` and `upper`.
pub mod Recent
pub mod Points
pub mod Costs
mod Examples
use Prim.Native.Nat.{Ordering, compare}
use llm_evaluation.Prelude.{
  ℕ, ◌+◌, ◌≡◌, ◌≢◌, ◌↔◌, Bool, true, false, not, ◌==◌, if◌then◌else◌, Option, none, some, List, [],
  ◌∷◌, ◌++◌, map, or_else, or_option, Text, codes, text_eq, includes, truthy, trim, take, take_last,
}
use llm_evaluation.Prelude.Sorting.{sort}
use llm_evaluation.Prelude.Grouping.{Groups, group_from}
use llm_evaluation.Types.Runs.{EvaluationRun}
use llm_evaluation.Types.Endpoints.{Endpoint}

pub record ConfidenceInterval (N : Type 0) : Type 0 where
  pub method : Text
  pub lower : N
  pub upper : N

-- A cell of `AnalyticsMatrix["heatmap"]`.
pub record AnalyticsRow (N : Type 0) : Type 0 where
  pub run_id : Text
  pub model_endpoint_id : Text
  pub model_name : Text
  pub benchmark_id : Text
  pub benchmark_version : Text
  pub accuracy : Option N
  pub success_rate : Option N
  pub error_rate : Option N
  pub average_latency_ms : Option N
  pub estimated_cost : Option N
  pub currency : Option Text
  pub required_capabilities : List Text
  pub sample_count : N
  pub confidence_interval : Option (ConfidenceInterval N)

pub record DashboardAnalyticsPoint (N : Type 0) : Type 0 where
  pub run_id : Text
  pub completed_at : Option Text
  pub model_name : Text
  pub benchmark_label : Text
  pub accuracy : Option N
  pub success_rate : Option N
  pub error_rate : Option N
  pub average_latency_ms : Option N
  pub estimated_cost : Option N
  pub currency : Option Text
  pub sample_count : N

pub record RecentRunRow (N J : Type 0) : Type 0 where
  pub run : EvaluationRun N J
  pub model_name : Text
  pub accuracy : Option N
  pub success_rate : Option N
  pub error_rate : Option N
  pub average_latency_ms : Option N
  pub estimated_cost : Option N
  pub currency : Option Text
  pub sample_count : Option N

abbrev pub terminal_run_statuses : List Text
terminal_run_statuses =
    codes "completed" ∷ codes "completed_with_errors" ∷ codes "failed" ∷ codes "cancelled" ∷ []

module _ {N J : Type 0} where
  -- `created_at` is always there.
  pub timestamp : EvaluationRun N J → Text
  timestamp run = or_else run.completed_at (or_else run.started_at run.created_at)

  pub is_active : EvaluationRun N J → Bool
  is_active run = not (includes terminal_run_statuses run.status)

-- `new Map(rows.map((row) => [key(row), row])).get(id)`: the last row with the key.
pub find_last {ℓ} : {A : Type ℓ} → (A → Text) → Text → List A → Option A
find_last key id [] = none
find_last key id (a ∷ rest) =
    or_option (find_last key id rest) (if text_eq (key a) id then some a else none)

pub benchmark_label : {N : Type 0} → AnalyticsRow N → Text
benchmark_label row =
    if truthy row.benchmark_version
    then row.benchmark_id ++ codes " · v" ++ row.benchmark_version
    else row.benchmark_id

-- The first value that is not blank, trimmed.
pub first_text : List (Option Text) → Text
first_text [] = codes "--"
first_text (none ∷ values) = first_text values
first_text (some value ∷ values) = if truthy (trim value) then trim value else first_text values

module _ (upper : Text → Text) where
  or_unspecified : Text → Text
  or_unspecified [] = codes "UNSPECIFIED"
  or_unspecified (c ∷ s) = c ∷ s

  pub normalized_currency : Option Text → Text
  normalized_currency none = codes "UNSPECIFIED"
  normalized_currency (some currency) = or_unspecified (upper (trim currency))

module _ {N J : Type 0} where
  pub point_for : EvaluationRun N J → AnalyticsRow N → DashboardAnalyticsPoint N
  point_for run row = record {
    run_id = run.id;
    completed_at = some (timestamp run);
    model_name = first_text (some row.model_name ∷ []);
    benchmark_label = benchmark_label row;
    accuracy = row.accuracy;
    success_rate = row.success_rate;
    error_rate = row.error_rate;
    average_latency_ms = row.average_latency_ms;
    estimated_cost = row.estimated_cost;
    currency = row.currency;
    sample_count = row.sample_count;
  }

  -- The rows of known runs become points; the others are dropped.
  pub points_of :
      List (EvaluationRun N J) → List (AnalyticsRow N) → List (DashboardAnalyticsPoint N)
  points_of runs [] = []
  points_of runs (row ∷ rows) = elim (find_last (λ r. r.id) row.run_id runs) [
    | none ↦ points_of runs rows
    | some run ↦ point_for run row ∷ points_of runs rows
  ]

module _ (collate : Text → Text → Ordering) where
  pub compare_points :
      {N : Type 0} → DashboardAnalyticsPoint N → DashboardAnalyticsPoint N → Ordering
  compare_points left right = collate (or_else left.completed_at []) (or_else right.completed_at [])

  -- No analytics are no rows.
  pub build_dashboard_analytics :
      {N J : Type 0}
      → List (EvaluationRun N J)
      → Option (List (AnalyticsRow N))
      → List (DashboardAnalyticsPoint N)
  build_dashboard_analytics runs heatmap =
      take_last 8 (sort compare_points (points_of runs (or_else heatmap [])))

-- What is relied on of `localeCompare`: it is consistent both ways round, and an order.
pub record Collation (collate : Text → Text → Ordering) : Type 0 where
  pub flip : (a b : Text) → (collate a b ≡ Ordering.lt) ↔ (collate b a ≡ Ordering.gt)
  pub chain :
      (a b c : Text)
      → collate a b ≢ Ordering.gt
      → collate b c ≢ Ordering.gt
      → collate a c ≢ Ordering.gt

-- A run with its place in the list.
pub record Indexed (N J : Type 0) : Type 0 where
  pub run : EvaluationRun N J
  pub index : ℕ

pub with_index : {N J : Type 0} → ℕ → List (EvaluationRun N J) → List (Indexed N J)
with_index i [] = []
with_index i (run ∷ runs) = record { run = run; index = i } ∷ with_index (i + 1) runs

-- `if (left !== right) return left ? -1 : 1;`, then the next criterion.
abbrev pub true_first : Bool → Bool → Ordering → Ordering
true_first true false next = Ordering.lt
true_first false true next = Ordering.gt
true_first true true next = next
true_first false false next = next

-- `first || next`.
abbrev pub then_by : Ordering → Ordering → Ordering
then_by Ordering.lt next = Ordering.lt
then_by Ordering.eq next = next
then_by Ordering.gt next = Ordering.gt

module _ (collate : Text → Text → Ordering) where
  pub compare_runs : {N J : Type 0} → Indexed N J → Indexed N J → Ordering
  compare_runs left right = true_first (is_active left.run) (is_active right.run) (
      then_by (collate (timestamp right.run) (timestamp left.run)) (compare left.index right.index))

-- `value?.field ?? null`.
abbrev pub field_of : {A B : Type 0} → (A → Option B) → Option A → Option B
field_of f none = none
field_of f (some a) = f a

pub recent_row :
    {N J : Type 0}
    → List (Endpoint N J)
    → Option (List (AnalyticsRow N))
    → EvaluationRun N J
    → RecentRunRow N J
recent_row endpoints heatmap run =
    let row = find_last (λ r. r.run_id) run.id (or_else heatmap []) in
    let endpoint = find_last (λ e. e.id) run.model_endpoint_id endpoints in
    record {
      run = run;
      model_name = first_text (
          field_of (λ e. some e.display_name) endpoint
          ∷ field_of (λ r. some r.model_name) row
          ∷ []);
      accuracy = field_of (λ r. r.accuracy) row;
      success_rate = field_of (λ r. r.success_rate) row;
      error_rate = field_of (λ r. r.error_rate) row;
      average_latency_ms = field_of (λ r. r.average_latency_ms) row;
      estimated_cost = field_of (λ r. r.estimated_cost) row;
      currency = field_of (λ r. r.currency) row;
      sample_count = field_of (λ r. some r.sample_count) row;
    }

pub build_recent_run_rows :
    (collate : Text → Text → Ordering) {N J : Type 0}
    → List (EvaluationRun N J)
    → List (Endpoint N J)
    → Option (List (AnalyticsRow N))
    → ℕ
    → List (RecentRunRow N J)
build_recent_run_rows collate runs endpoints heatmap limit =
    map (λ i. recent_row endpoints heatmap i.run)
      (take limit (sort (compare_runs collate) (with_index 0 runs)))

-- A point without a cost is in no group.
pub cost_key : (Text → Text) → {N : Type 0} → DashboardAnalyticsPoint N → Option Text
cost_key upper point = elim point.estimated_cost [
  | none ↦ none
  | some cost ↦ some (normalized_currency upper point.currency)
]

pub group_costs_by_currency :
    (Text → Text)
    → {N : Type 0} → List (DashboardAnalyticsPoint N)
    → Groups Text (DashboardAnalyticsPoint N)
group_costs_by_currency upper points = group_from text_eq (cost_key upper) [] points
