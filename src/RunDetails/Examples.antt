-- ===== src/RunDetails/Examples.antt =====
-- The details of runs at concrete answers.
use Prim.Native.Nat.{ℕ}
use llm_evaluation.Prelude.{
  ◌≡◌, ◌≢◌, refl, false, ◌||◌, none, some, List, [], ◌∷◌, Text, codes, text_eq, text_eq_iff,
}
use llm_evaluation.Prelude.Sorting.{Ordered}
use llm_evaluation.Types.Runs.{SampleAttempt, HumanReviewStatus}
use llm_evaluation.RunDetails.{Kinds, RunAnswer, RunsState, add_attempts, select_run, run_answered}
use llm_evaluation.RunDetails.Attempts.{Apart, listed, add_attempts-Ordered}
use llm_evaluation.RunDetails.Late.{Event, selected, answered, more, run}

abbrev numbers : Kinds
numbers = record {
  Summary = ℕ;
  Metric = ℕ;
  Report = ℕ;
  Review = ℕ;
  ReviewAgreement = ℕ;
  Assessment = ℕ;
  JudgeAgreement = ℕ;
}

abbrev answer : ℕ → RunAnswer ℕ ℕ numbers
answer n = record { attempts = []; summary = n; metrics = n ∷ []; reports = []; logs = [] }

abbrev start : RunsState ℕ ℕ numbers
start = record {
  selected_run = none;
  selected_attempt = none;
  attempts = [];
  run_summary = none;
  run_metrics = [];
  reports = [];
  run_logs = [];
  reviews = [];
  review_agreement = none;
  judge_assessments = [];
  judge_agreement = none;
}

-- Run b is selected while the answer for run a is on its way, which then comes last.
abbrev crossing : List (Event ℕ ℕ numbers)
crossing =
    selected (codes "b") ∷ answered (codes "b") (answer 2) ∷ answered (codes "a") (answer 1) ∷ []

mixed :
    let s = run (selected (codes "a") ∷ crossing) start in
    (s.selected_run ≡ some (codes "b")) × (s.run_summary ≡ some 1)
unfolding select_run run_answered
mixed = (refl, refl)

abbrev attempt : Text → SampleAttempt ℕ ℕ
attempt id = record {
  id = id;
  sample_id = codes "sample";
  attempt_number = 1;
  input_snapshot = 0;
  reference_snapshot = 0;
  request_snapshot = none;
  raw_response = none;
  parsed_prediction = none;
  metric_evidence = none;
  score = none;
  latency_ms = none;
  input_tokens = none;
  output_tokens = none;
  estimated_cost = none;
  error_type = none;
  error_message = none;
  status = codes "completed";
  created_at = [];
  completed_at = none;
  sample_metadata = [];
  judge_disagreement = false;
  human_review_status = HumanReviewStatus.unreviewed;
}

abbrev first_page : List (SampleAttempt ℕ ℕ)
first_page = attempt (codes "a") ∷ attempt (codes "b") ∷ []

abbrev next_page : List (SampleAttempt ℕ ℕ)
next_page = attempt (codes "b") ∷ attempt (codes "c") ∷ []

added :
    add_attempts next_page first_page
    ≡ attempt (codes "a") ∷ attempt (codes "b") ∷ attempt (codes "c") ∷ []
unfolding add_attempts text_eq
added = refl

apart : (s t : Text) → text_eq s t ≡ false → s ≢ t
apart s t h e = cc ((text_eq_iff s t).1 e, h)

add_attempts-Ordered_example :
    Ordered Apart (add_attempts next_page first_page)
    × ((id : Text)
        → listed id (add_attempts next_page first_page)
          ≡ (listed id first_page || listed id next_page))
unfolding text_eq
add_attempts-Ordered_example =
    add_attempts-Ordered next_page first_page ((apart (codes "b") (codes "c") refl, tt), (tt, tt))
      ((apart (codes "a") (codes "b") refl, tt), (tt, tt))

-- A page that was asked for run a comes behind the answer for run b.
abbrev paged : List (Event ℕ ℕ numbers)
paged =
    selected (codes "b")
    ∷ answered (codes "b") (record (answer 2) { attempts = first_page })
    ∷ more (codes "a") next_page
    ∷ []
