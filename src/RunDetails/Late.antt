-- ===== src/RunDetails/Late.antt =====
-- What the details belong to, when answers come in any order.
use llm_evaluation.Prelude.{◌≡◌, Bool, false, ◌||◌, Option, none, some, List, [], ◌∷◌, Text}
use llm_evaluation.Prelude.Sorting.{Ordered}
use llm_evaluation.Types.Runs.{SampleAttempt}
use llm_evaluation.RunDetails.{
  Kinds, RunAnswer, ReviewAnswer, RunsState, select_run, run_answered, open_review, review_answered,
  more_answered,
}
use llm_evaluation.RunDetails.Attempts.{Apart, listed}

-- An answer carries the run that it was asked for; the page itself does not look at it.
pub data Event (N J : Type 0) (K : Kinds) : Type 0 where
  selected : Text → Event N J K
  answered : Text → RunAnswer N J K → Event N J K
  opened : SampleAttempt N J → Event N J K
  reviewed : ReviewAnswer K → Event N J K
  more : Text → List (SampleAttempt N J) → Event N J K

module _ {N J : Type 0} {K : Kinds} where
  abbrev pub step : Event N J K → RunsState N J K → RunsState N J K
  step (selected run_id) s = select_run run_id s
  step (answered run_id a) s = run_answered a s
  step (opened attempt) s = open_review attempt s
  step (reviewed a) s = review_answered a s
  step (more run_id next) s = more_answered next s

  abbrev pub run : List (Event N J K) → RunsState N J K → RunsState N J K
  run [] s = s
  run (e ∷ events) s = run events (step e s)

  -- The run that is selected last, and the last answer behind that selection.
  abbrev pub last_selected : Option Text → List (Event N J K) → Option Text
  last_selected o [] = o
  last_selected o (selected run_id ∷ events) = last_selected (some run_id) events
  last_selected o (answered run_id a ∷ events) = last_selected o events
  last_selected o (opened attempt ∷ events) = last_selected o events
  last_selected o (reviewed a ∷ events) = last_selected o events
  last_selected o (more run_id next ∷ events) = last_selected o events

  abbrev pub last_answer : Option (RunAnswer N J K) → List (Event N J K) → Option (RunAnswer N J K)
  last_answer o [] = o
  last_answer o (selected run_id ∷ events) = last_answer none events
  last_answer o (answered run_id a ∷ events) = last_answer (some a) events
  last_answer o (opened attempt ∷ events) = last_answer o events
  last_answer o (reviewed a ∷ events) = last_answer o events
  last_answer o (more run_id next ∷ events) = last_answer o events

  -- Whether an attempt is in the last answer behind the last selection or in a page that came behind
  -- this; `before` tells it of the events before.
  unfoldable pub has_come : Text → (before : Bool) → List (Event N J K) → Bool
  has_come id before [] = before
  has_come id before (selected run_id ∷ events) = has_come id false events
  has_come id before (answered run_id a ∷ events) = has_come id (listed id a.attempts) events
  has_come id before (more run_id next ∷ events) = has_come id (before || listed id next) events
  has_come id before (opened attempt ∷ events) = has_come id before events
  has_come id before (reviewed a ∷ events) = has_come id before events

  -- No answer and no page has an attempt twice.
  abbrev pub HasNoRepeats : Event N J K → Type 0
  HasNoRepeats (selected run_id) = Unit
  HasNoRepeats (answered run_id a) = Ordered Apart a.attempts
  HasNoRepeats (more run_id next) = Ordered Apart next
  HasNoRepeats (opened attempt) = Unit
  HasNoRepeats (reviewed a) = Unit

  -- But for the attempts, the page shows nothing of a run, or exactly this answer.
  abbrev pub Shows : Option (RunAnswer N J K) → RunsState N J K → Type 0
  Shows none s =
      (s.run_summary ≡ none) × (s.run_metrics ≡ []) × (s.reports ≡ []) × (s.run_logs ≡ [])
  Shows (some a) s =
      (s.run_summary ≡ some a.summary)
      × (s.run_metrics ≡ a.metrics)
      × (s.reports ≡ a.reports)
      × (s.run_logs ≡ a.logs)
