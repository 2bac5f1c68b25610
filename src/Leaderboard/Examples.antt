-- ===== src/Leaderboard/Examples.antt =====
-- Runs of the leaderboard page and the theorems at concrete inputs.
use llm_evaluation.Prelude.{
  ◌≡◌, ◌≤◌, ◌↔◌, inl, inr, refl, not, some, List, [], ◌∷◌, Text, codes, if◌then◌else◌, text_eq,
  includes, arith,
}
use llm_evaluation.Leaderboard.{
  FilterState, FilterKey, empty_filters, query_from_filters, filters_from_query, filter_chips,
  numeric_sort,
}
use llm_evaluation.Leaderboard.Session.{
  PageInfo, load, set_query, open_page, toggle, cleared, Event, previous, next, respond, fail, step,
}
use llm_evaluation.Leaderboard.Filters.{
  filters_from_query-query_from_filters, filter_chips-eq-nil_iff,
}
use llm_evaluation.Leaderboard.Invariant.{IsValid, run, run-open_page-IsValid}
use llm_evaluation.Leaderboard.Races.{Supersedes, step-respond-late}
use llm_evaluation.Leaderboard.Statuses.{includes-toggle}

abbrev march : FilterState
march = record empty_filters {
  dataset = codes "gsm8k";
  statuses = codes "completed" ∷ codes "failed" ∷ [];
  created_from = codes "2025-03-01";
}

abbrev key_label : FilterKey → Text
key_label key = codes "Filter"

abbrev two_pages : PageInfo
two_pages = record { page = 1; total_pages = 2 }

-- The page goes on to page 2 and back, and sorts.
abbrev paging : List Event
paging =
    respond 1 two_pages ∷ next ∷ respond 2 (record { page = 2; total_pages = 2 }) ∷ previous ∷ []

session : Unit {0}
unfolding step set_query load open_page text_eq numeric_sort includes toggle filter_chips
    query_from_filters cleared
session = tt

pages : (run paging open_page).query.page ≡ some 1
unfolding session
pages = refl

requests : (run paging open_page).generation ≡ 3
unfolding session
requests = refl

filters_from_query-query_from_filters_example :
    filters_from_query (query_from_filters march) ≡ march
filters_from_query-query_from_filters_example =
    filters_from_query-query_from_filters march (inr refl) (inl refl)

filter_chips-eq-nil_iff_example :
    (filter_chips key_label (query_from_filters march) ≡ []) ↔ (march ≡ empty_filters)
filter_chips-eq-nil_iff_example = filter_chips-eq-nil_iff key_label march

run-open_page-IsValid_example : IsValid (run paging open_page)
run-open_page-IsValid_example = run-open_page-IsValid paging

retry_made : Supersedes Event.retry (run paging open_page)
unfolding Supersedes
retry_made = tt

three_made : 3 ≤ (run paging open_page).generation
three_made = omega (arith, requests)

step-respond-late_example :
    let s = run (next ∷ []) (step Event.retry (run paging open_page)) in
    (step (respond 3 two_pages) s ≡ s)
    × (step (fail 3 (codes "offline")) s ≡ s)
    × ((step (respond s.generation two_pages) s).result ≡ some two_pages)
step-respond-late_example =
    step-respond-late paging (next ∷ []) Event.retry 3 two_pages (codes "offline") retry_made
      three_made

includes-toggle_example : includes (toggle (codes "failed") march.statuses) (codes "failed") ≡ (
    if text_eq (codes "failed") (codes "failed")
    then not (includes march.statuses (codes "failed"))
    else includes march.statuses (codes "failed"))
includes-toggle_example = includes-toggle (codes "failed") (codes "failed") march.statuses
