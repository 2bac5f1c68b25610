-- ===== src/Scatter/Examples.antt =====
-- The evidence scatter at concrete choices and answers.
use Prim.Native.Nat.{ℕ}
use llm_evaluation.Prelude.{
  ◌≡◌, refl, true, false, if◌then◌else◌, Option, none, some, List, [], ◌∷◌, Text, codes, text_eq,
  includes, length, arith,
}
use llm_evaluation.Prelude.Distinct.{distinct, distinct-IsDistinct, IsDistinct}
use llm_evaluation.Types.Analytics.{ScatterResponse, ScatterAxis}
use llm_evaluation.Scatter.{ScatterState, default_filters, build_query, toggle_run, is_checked}
use llm_evaluation.Scatter.Selection.{is_checked-toggle_run}
use llm_evaluation.Scatter.Requests.{
  Event, retry, select_all, respond, fail, step, run, Supersedes, step-respond-stale,
}

abbrev options : List Text
options = codes "a" ∷ codes "b" ∷ codes "c" ∷ []

program : Unit {0}
unfolding text_eq includes distinct toggle_run
program = tt

one_off : toggle_run options (codes "b") false none ≡ some (codes "a" ∷ codes "c" ∷ [])
unfolding program
one_off = refl

on_again : toggle_run options (codes "b") true (some (codes "a" ∷ codes "c" ∷ [])) ≡ none
unfolding program
on_again = refl

options-IsDistinct : IsDistinct options
unfolding program
options-IsDistinct = distinct-IsDistinct options

is_checked-toggle_run_example :
    is_checked (toggle_run options (codes "b") false none) (codes "c")
    ≡ (if text_eq (codes "b") (codes "c") then false else is_checked none (codes "c"))
unfolding program
is_checked-toggle_run_example =
    is_checked-toggle_run options (codes "b") false none (codes "c") options-IsDistinct (λ t h. h)
      refl refl

abbrev axis : ScatterAxis
axis = record { metric_name = codes "score"; label = []; unit = []; profile = [] }

abbrev empty_answer : ScatterResponse ℕ
empty_answer = record {
  x_axis = axis;
  y_axis = axis;
  selected_run_ids = [];
  eligible_run_count = 0;
  plottable_count = 0;
  plotted_count = 0;
  unavailable_count = 0;
  unavailable_by_axis = record { x = 0; y = 0; both = 0 };
  unavailable_reasons = [];
  truncated_count = 0;
  max_points = 500;
  points = [];
}

abbrev text_number : Text → Option ℕ
text_number text = some (length text)

-- Two requests have been made, and the second is waited for.
abbrev waiting : ScatterState ℕ
waiting = record {
  filters = default_filters;
  selected_run_ids = none;
  response = none;
  catalog_response = none;
  loading = true;
  error = none;
  latest_request = 2;
  last_query = build_query text_number 500 default_filters none;
}

abbrev later : List (Event ℕ)
later = respond 2 empty_answer ∷ select_all false ∷ retry ∷ []

retry_made : Supersedes text_number 500 retry waiting
unfolding Supersedes
retry_made = tt

step-respond-stale_example :
    let t = run text_number 500 later (step text_number 500 retry waiting) in
    (step text_number 500 (respond 2 empty_answer) t ≡ t)
    × (step text_number 500 (fail 2 (codes "offline")) t ≡ t)
    × ((step text_number 500 (respond t.latest_request empty_answer) t).response
        ≡ some empty_answer)
step-respond-stale_example =
    step-respond-stale text_number 500 later retry waiting 2 empty_answer (codes "offline")
      retry_made (omega arith)
