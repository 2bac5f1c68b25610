-- ===== src/Dashboard/Costs.antt =====
-- The cost groups: one for each currency, each with the priced points of that currency.
use llm_evaluation.Prelude.{
  ◌≡◌, ◌≢◌, refl, ◌∙◌, Bool, false, none, some, List, [], ◌∷◌, Text, text_eq, text_eq_iff, keep,
  All, arith,
}
use llm_evaluation.Prelude.Sorting.{Ordered}
use llm_evaluation.Prelude.Grouping.{rows_of, rows_of-group_from, group_from-IsGrouped, key_is}
use llm_evaluation.Dashboard.{
  DashboardAnalyticsPoint, cost_key, normalized_currency, group_costs_by_currency,
}

-- The point has a cost, and it is in this currency.
abbrev pub is_priced_in : (Text → Text) → Text → {N : Type 0} → DashboardAnalyticsPoint N → Bool
is_priced_in upper currency point = elim point.estimated_cost [
  | none ↦ false
  | some cost ↦ text_eq (normalized_currency upper point.currency) currency
]

keep-same :
    {A : Type 0} (p q : A → Bool) → ((a : A) → p a ≡ q a) → (xs : List A) → keep p xs ≡ keep q xs
keep-same p q h [] = refl
keep-same p q h (a ∷ xs) = rw (h a, keep-same p q h xs)

key_is-cost_key :
    (upper : Text → Text) (currency : Text) {N : Type 0} (point : DashboardAnalyticsPoint N)
    → key_is text_eq currency (cost_key upper point) ≡ is_priced_in upper currency point
unfolding cost_key
key_is-cost_key upper currency point = ground arith

-- The group of a currency holds exactly the points that have a cost and are of this currency, in
-- their order; no two groups have one currency, and none is empty.
pub group_costs_by_currency-partition :
    (upper : Text → Text) {N : Type 0} (points : List (DashboardAnalyticsPoint N))
    → let groups = group_costs_by_currency upper points in
      ((currency : Text)
        → rows_of text_eq currency groups ≡ keep (is_priced_in upper currency) points)
      × Ordered (λ g h. g.0 ≢ h.0) groups
      × All (λ g. g.1 ≢ []) groups
unfolding group_costs_by_currency rows_of
group_costs_by_currency-partition upper points =
    let grouped = group_from-IsGrouped text_eq text_eq_iff (cost_key upper) [] points (tt, tt) in
    (
      λ currency.
          rows_of-group_from text_eq text_eq_iff (cost_key upper) currency [] points
          ∙ keep-same (λ p. key_is text_eq currency (cost_key upper p))
              (is_priced_in upper currency) (key_is-cost_key upper currency) points,
      grouped.0,
      grouped.1,
    )
