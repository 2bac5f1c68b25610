-- ===== src/Leaderboard/Filters.antt =====
-- Filters become a query and come back; the chips show exactly the filters that are set.
use llm_evaluation.Prelude.{
  ◌≡◌, ◌⊎◌, ◌↔◌, inl, inr, refl, Option, none, some, List, [], ◌∷◌, ◌++◌, or_else, Text, codes,
  non_empty, length, take, ap, arith, sym, ◌∙◌, concat-nil,
}
use llm_evaluation.Types.Datasets.{EvaluationType}
use llm_evaluation.Leaderboard.{
  FilterState, FilterKey, dataset, model_endpoint_id, statuses, created_from, created_to,
  capability, language, evaluation_type, available_metric, empty_filters, query_from_filters,
  filters_from_query, with_suffix, date_part, non_empty_list, filter_chips, chip_lists, chip_for,
  status_chips, type_chip,
}

-- A date of an input field: empty, or year, month and day in ten characters.
abbrev pub IsDate : Text → Type 0
IsDate s = (s ≡ []) ⊎ (length s ≡ 10)

take-length-append : (s t : Text) → take (length s) (s ++ t) ≡ s
take-length-append [] t = refl
take-length-append (c ∷ s) t = ap (◌∷◌ c) (take-length-append s t)

date_part-with_suffix : (s suffix : Text) → IsDate s → date_part (with_suffix s suffix) ≡ s
date_part-with_suffix [] suffix h = refl
date_part-with_suffix (c ∷ s) suffix (inl e) = cc
date_part-with_suffix (c ∷ s) suffix (inr e) =
    ap (λ n. take n (c ∷ s ++ suffix)) (sym e) ∙ take-length-append (c ∷ s) suffix

or_else-non_empty : (s : Text) → or_else (non_empty s) [] ≡ s
or_else-non_empty [] = refl
or_else-non_empty (c ∷ s) = refl

or_else-non_empty_list : (ts : List Text) → or_else (non_empty_list ts) [] ≡ ts
or_else-non_empty_list [] = refl
or_else-non_empty_list (t ∷ ts) = refl

-- The filters of a query made from filters are these filters, if their dates are empty or have ten
-- characters.
pub filters_from_query-query_from_filters :
    (f : FilterState)
    → IsDate f.created_from
    → IsDate f.created_to
    → filters_from_query (query_from_filters f) ≡ f
unfolding filters_from_query query_from_filters
filters_from_query-query_from_filters f from to = simp (
  or_else-non_empty,
  or_else-non_empty_list,
  date_part-with_suffix f.created_from (codes "T00:00:00Z") from,
  date_part-with_suffix f.created_to (codes "T23:59:59.999Z") to,
)

chip_for-nil :
    (key : FilterKey) (label : Text) (shown : Text → Text) (s : Text)
    → chip_for key label shown (non_empty s) ≡ []
    → s ≡ []
chip_for-nil key label shown [] h = refl
chip_for-nil key label shown (c ∷ s) h = cc

date_chip-nil :
    (key : FilterKey) (label : Text) (s suffix : Text)
    → chip_for key label (take 10) (with_suffix s suffix) ≡ []
    → s ≡ []
date_chip-nil key label [] suffix h = refl
date_chip-nil key label (c ∷ s) suffix h = cc

status_chips-nil :
    (label : Text) (ts : List Text) → status_chips label (non_empty_list ts) ≡ [] → ts ≡ []
status_chips-nil label [] h = refl
status_chips-nil label (t ∷ ts) h = cc

type_chip-nil : (label : Text) (o : Option EvaluationType) → type_chip label o ≡ [] → o ≡ none
type_chip-nil label none h = refl
type_chip-nil label (some t) h = cc

-- A query made from filters shows no chip exactly when no filter is set.
pub filter_chips-eq-nil_iff :
    (copy : FilterKey → Text) (f : FilterState)
    → (filter_chips copy (query_from_filters f) ≡ []) ↔ (f ≡ empty_filters)
unfolding filter_chips query_from_filters
filter_chips-eq-nil_iff copy f = (to, λ e. rw e)
  where
    to : filter_chips copy (query_from_filters f) ≡ [] → f ≡ empty_filters
    to h =
        let (a, (b, (c, (d, (e, (g, (i, (j, (k, end))))))))) =
          concat-nil (chip_lists copy (query_from_filters f)) h in
        ground (
          arith,
          chip_for-nil dataset (copy dataset) (λ t. t) f.dataset a,
          chip_for-nil model_endpoint_id (copy model_endpoint_id) (λ t. t) f.model_endpoint_id b,
          status_chips-nil (copy statuses) f.statuses c,
          date_chip-nil created_from (copy created_from) f.created_from (codes "T00:00:00Z") d,
          date_chip-nil created_to (copy created_to) f.created_to (codes "T23:59:59.999Z") e,
          chip_for-nil capability (copy capability) (λ t. t) f.capability g,
          chip_for-nil language (copy language) (λ t. t) f.language i,
          type_chip-nil (copy evaluation_type) f.evaluation_type j,
          chip_for-nil available_metric (copy available_metric) (λ t. t) f.available_metric k,
        )
