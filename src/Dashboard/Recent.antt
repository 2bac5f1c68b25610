-- ===== src/Dashboard/Recent.antt =====
-- The recent runs: active ones first, then the newest, and the list's order where these tie.
use Prim.Native.Nat.{Ordering}
use llm_evaluation.Prelude.{
  ℕ, ◌≡◌, ◌≢◌, ◌≤◌, refl, true, false, List, [], ◌∷◌, ap, suc, ◌+◌, map, Text, length, length-take,
  take, arith, Option,
}
use llm_evaluation.Prelude.Sorting.{is_gt, sort, sort-perm, sort-Ordered, length-sort, Ordered}
use mathlib.Core.List.{Perm}
use Prim.Native.Nat.{min}
use llm_evaluation.Types.Runs.{EvaluationRun}
use llm_evaluation.Types.Endpoints.{Endpoint}
use llm_evaluation.Dashboard.{
  AnalyticsRow, RecentRunRow, Indexed, Collation, with_index, timestamp, is_active, compare_runs,
  recent_row, build_recent_run_rows,
}

-- A run stands before another: no inactive run before an active one, no older run before a newer one
-- of its kind, and equal ones in the order of the list.
pub record Before {N J : Type 0} (collate : Text → Text → Ordering) (a b : Indexed N J)
    : Type 0 where
  pub active : is_active b.run ≡ true → is_active a.run ≡ true
  pub newer :
      is_active a.run ≡ is_active b.run → collate (timestamp b.run) (timestamp a.run) ≢ Ordering.gt
  pub tie :
      is_active a.run ≡ is_active b.run
      → collate (timestamp b.run) (timestamp a.run) ≡ Ordering.eq
      → a.index ≤ b.index

module _ {N J : Type 0} {collate : Text → Text → Ordering} (c : Collation collate) where
  after : (a b : Indexed N J) → is_gt (compare_runs collate a b) ≡ true → Before collate b a
  unfolding compare_runs
  after a b h =
      let flip = c.flip (timestamp a.run) (timestamp b.run) in
      let flip' = c.flip (timestamp b.run) (timestamp a.run) in ground (arith, flip, flip')

  before : (a b : Indexed N J) → is_gt (compare_runs collate a b) ≡ false → Before collate a b
  unfolding compare_runs
  before a b h = ground arith

  Before-trans :
      (x y z : Indexed N J) → Before collate x y → Before collate y z → Before collate x z
  Before-trans x y z p q =
      let tx = timestamp x.run in
      let ty = timestamp y.run in
      let tz = timestamp z.run in
      let zyx = c.chain tz ty tx in
      let xzy = c.chain tx tz ty in
      let yxz = c.chain ty tx tz in
      ground (
        arith,
        zyx,
        xzy,
        yxz,
        c.flip tz tx,
        c.flip tx tz,
        c.flip ty tx,
        c.flip tx ty,
        c.flip tz ty,
        c.flip ty tz,
      )

-- The rows show the first runs of an arrangement of all runs in this order.
pub record IsRecent {N J : Type 0} (collate : Text → Text → Ordering)
    (runs : List (EvaluationRun N J)) (endpoints : List (Endpoint N J))
    (heatmap : Option (List (AnalyticsRow N))) (limit : ℕ) (rows : List (RecentRunRow N J))
    : Type 0 where
  pub order : List (Indexed N J)
  pub arranged : Perm order (with_index 0 runs)
  pub ordered : Ordered (Before collate) order
  pub shown : rows ≡ map (λ i. recent_row endpoints heatmap i.run) (take limit order)
  pub size : length rows ≡ min limit (length runs)

length-map : {A B : Type 0} (f : A → B) (xs : List A) → length (map f xs) ≡ length xs
length-map f [] = refl
length-map f (x ∷ xs) = ap suc (length-map f xs)

length-with_index :
    {N J : Type 0} (i : ℕ) (runs : List (EvaluationRun N J))
    → length (with_index i runs) ≡ length runs
unfolding with_index
length-with_index i [] = refl
length-with_index i (run ∷ runs) = ap suc (length-with_index (i + 1) runs)

-- What the dashboard lists are the first runs of such an arrangement, as many as the limit allows.
pub build_recent_run_rows-IsRecent :
    {N J : Type 0} {collate : Text → Text → Ordering}
    → Collation collate
    → (runs : List (EvaluationRun N J)) (endpoints : List (Endpoint N J))
      (heatmap : Option (List (AnalyticsRow N))) (limit : ℕ)
    → IsRecent collate runs endpoints heatmap limit
        (build_recent_run_rows collate runs endpoints heatmap limit)
unfolding build_recent_run_rows
build_recent_run_rows-IsRecent {collate} c runs endpoints heatmap limit =
    let order = sort (compare_runs collate) (with_index 0 runs) in
    record {
      order = order;
      arranged = sort-perm (compare_runs collate) (with_index 0 runs);
      ordered =
          sort-Ordered (compare_runs collate) (Before collate) (after c) (before c) (Before-trans c)
            (with_index 0 runs);
      shown = refl;
      size = omega (
        arith,
        length-map (λ i. recent_row endpoints heatmap i.run) (take limit order),
        length-take limit order,
        length-sort (compare_runs collate) (with_index 0 runs),
        length-with_index 0 runs,
      );
    }
