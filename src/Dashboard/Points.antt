-- ===== src/Dashboard/Points.antt =====
-- The points of the dashboard's charts: the newest eight, oldest first.
use Prim.Native.Nat.{Ordering, min}
use mathlib.Core.List.{Perm}
use llm_evaluation.Prelude.{
  ◌≡◌, ◌≢◌, ◌-◌, true, false, List, [], ◌∷◌, ◌++◌, Text, text_eq_iff, Option, some, length,
  length-drop, take, drop, take-append-drop, All, All-drop, arith, or_else, is_some, Option-cases,
  inl, inr,
}
use llm_evaluation.Prelude.Sorting.{
  is_gt, sort, sort-perm, sort-Ordered, length-sort, Ordered, All-sort,
}
use llm_evaluation.Types.Runs.{EvaluationRun}
use llm_evaluation.Dashboard.{
  AnalyticsRow, DashboardAnalyticsPoint, Collation, find_last, compare_points, points_of, point_for,
  build_dashboard_analytics,
}

abbrev pub completed_text : {N : Type 0} → DashboardAnalyticsPoint N → Text
completed_text p = or_else p.completed_at []

-- A point stands before another that is not older.
abbrev pub NotAfter :
    {N : Type 0}
    → (Text → Text → Ordering)
    → DashboardAnalyticsPoint N
    → DashboardAnalyticsPoint N
    → Type 0
NotAfter collate p q = collate (completed_text p) (completed_text q) ≢ Ordering.gt

abbrev pub IsKnown : {N J : Type 0} → List (EvaluationRun N J) → DashboardAnalyticsPoint N → Type 0
IsKnown runs p = is_some (find_last (λ r. r.id) p.run_id runs) ≡ true

-- The points are the last of an arrangement of the points of all known rows, oldest first.
pub record IsTrend {N J : Type 0} (collate : Text → Text → Ordering)
    (runs : List (EvaluationRun N J)) (heatmap : Option (List (AnalyticsRow N)))
    (points : List (DashboardAnalyticsPoint N)) : Type 0 where
  pub earlier : List (DashboardAnalyticsPoint N)
  pub arranged : Perm (earlier ++ points) (points_of runs (or_else heatmap []))
  pub ordered : Ordered (NotAfter collate) (earlier ++ points)
  pub known : All (IsKnown runs) points
  pub size : length points ≡ min 8 (length (points_of runs (or_else heatmap [])))

find_last-key :
    {N J : Type 0} (id : Text) (runs : List (EvaluationRun N J)) (run : EvaluationRun N J)
    → find_last (λ r. r.id) id runs ≡ some run
    → run.id ≡ id
unfolding find_last
find_last-key id [] run h = cc
find_last-key id (r ∷ runs) run h = ground (arith, text_eq_iff r.id id, find_last-key id runs run)

point_for-IsKnown :
    {N J : Type 0} (runs : List (EvaluationRun N J)) (row : AnalyticsRow N)
    (run : EvaluationRun N J)
    → find_last (λ r. r.id) row.run_id runs ≡ some run
    → IsKnown runs (point_for run row)
unfolding point_for
point_for-IsKnown runs row run e = rw (find_last-key row.run_id runs run e, e)

points_of-IsKnown :
    {N J : Type 0} (runs : List (EvaluationRun N J)) (rows : List (AnalyticsRow N))
    → All (IsKnown runs) (points_of runs rows)
unfolding points_of
points_of-IsKnown runs [] = tt
points_of-IsKnown runs (row ∷ rows) = elim (Option-cases (find_last (λ r. r.id) row.run_id runs)) [
  | inl e ↦ rw (e, points_of) (points_of-IsKnown runs rows)
  | inr (run, e) ↦ rw (e, points_of) (point_for-IsKnown runs row run e, points_of-IsKnown runs rows)
]

module _ {N : Type 0} {collate : Text → Text → Ordering} (c : Collation collate) where
  after :
      (p q : DashboardAnalyticsPoint N)
      → is_gt (compare_points collate p q) ≡ true
      → NotAfter collate q p
  unfolding compare_points
  after p q h = ground (
    arith,
    c.flip (completed_text p) (completed_text q),
    c.flip (completed_text q) (completed_text p),
  )

  before :
      (p q : DashboardAnalyticsPoint N)
      → is_gt (compare_points collate p q) ≡ false
      → NotAfter collate p q
  unfolding compare_points
  before p q h = ground arith

module _ {N J : Type 0} {collate : Text → Text → Ordering} (c : Collation collate) where
  -- The chart shows the newest points of known runs, eight at most, oldest first.
  pub build_dashboard_analytics-IsTrend :
      (runs : List (EvaluationRun N J)) (heatmap : Option (List (AnalyticsRow N)))
      → IsTrend collate runs heatmap (build_dashboard_analytics collate runs heatmap)
  unfolding build_dashboard_analytics
  build_dashboard_analytics-IsTrend runs heatmap =
      let all_points = points_of runs (or_else heatmap []) in
      let order = sort (compare_points collate) all_points in
      let cut = length order - 8 in
      let whole : take cut order ++ drop cut order ≡ order = take-append-drop cut order in
      record {
        earlier = take cut order;
        arranged = rw whole (sort-perm (compare_points collate) all_points);
        ordered = rw whole (
            sort-Ordered (compare_points collate) (NotAfter collate) (after c) (before c)
              (λ x y z. c.chain _ _ _) all_points);
        known = All-drop (IsKnown runs) cut order (
            All-sort (compare_points collate) (IsKnown runs) all_points (points_of-IsKnown runs _));
        size =
            omega (arith, length-drop cut order, length-sort (compare_points collate) all_points);
      }
