-- ===== src/Evidence/Filters.antt =====
-- EvidenceBrowser: which samples pass the filters and how many of them are shown. `J` stands for the
-- snapshots, of which the code reads the modality; numbers of JavaScript and `toLowerCase` are parameters.
use llm_evaluation.Prelude.{
  ℕ, Bool, true, false, not, ◌&&◌, ◌||◌, if◌then◌else◌, Option, none, some, List, [], ◌∷◌, ◌++◌,
  keep, length, or_else, is_some, Text, codes, text_eq, opt_eq, truthy, includes, trim,
}
use llm_evaluation.Types.Runs.{SampleAttempt, HumanReviewStatus}

pub record EvidenceFilters : Type 0 where
  pub query : Text
  pub status : Text
  pub correctness : Text
  pub capability : Text
  pub modality : Text
  pub language : Text
  pub difficulty : Text
  pub error_kind : Text
  pub judge_state : Text
  pub review_state : Text
  pub anomaly : Text

abbrev pub all_samples : EvidenceFilters
all_samples = record {
  query = [];
  status = codes "all";
  correctness = codes "all";
  capability = codes "all";
  modality = codes "all";
  language = codes "all";
  difficulty = codes "all";
  error_kind = codes "all";
  judge_state = codes "all";
  review_state = codes "all";
  anomaly = codes "all";
}

-- `mean` divides by a count, by one if it is none; `is_over_twice a b` is `a > b * 2`.
pub record Numbers (N : Type 0) : Type 0 where
  pub nought : N
  pub add : N → N → N
  pub mean : N → ℕ → N
  pub is_over_twice : N → N → Bool
  pub is_one : N → Bool

pub record Averages (N : Type 0) : Type 0 where
  pub latency : N
  pub tokens : N
  pub cost : N

-- `startsWith` and `includes` of a text.
unfoldable pub starts_with : Text → Text → Bool
starts_with s [] = true
starts_with [] (d ∷ t) = false
starts_with (c ∷ s) (d ∷ t) = text_eq (c ∷ []) (d ∷ []) && starts_with s t

unfoldable pub contains : Text → Text → Bool
contains [] t = starts_with [] t
contains (c ∷ s) t = starts_with (c ∷ s) t || contains s t

unfoldable pub metadata : List (Text × Text) → Text → Option Text
metadata [] key = none
metadata ((k, v) ∷ m) key = if text_eq k key then some v else metadata m key

abbrev pub review_name : HumanReviewStatus → Text
review_name HumanReviewStatus.unreviewed = codes "unreviewed"
review_name HumanReviewStatus.reviewed = codes "reviewed"
review_name HumanReviewStatus.adjudicated = codes "adjudicated"

-- A filter that is off, or a value that passes it.
abbrev pub is_all : Text → Bool
is_all filter = text_eq filter (codes "all")

unfoldable pub equals : Text → Option Text → Bool
equals filter value = is_all filter || opt_eq value (some filter)

unfoldable pub is_api_error : Text → Bool
is_api_error error_type =
    starts_with error_type (codes "http_")
    || includes (codes "timeout" ∷ codes "connection_error" ∷ []) error_type

unfoldable pub passes_error : Text → Option Text → Bool
passes_error filter error_type =
    is_all filter
    || text_eq filter (codes "api") && is_api_error (or_else error_type [])
    || text_eq filter (codes "parser") && opt_eq error_type (some (codes "response_parse_error"))
    || text_eq filter (codes "any") && truthy (or_else error_type [])

unfoldable pub passes_judge : Text → Bool → Bool
passes_judge filter disagreement =
    is_all filter
    || text_eq filter (codes "disagreement") && disagreement
    || text_eq filter (codes "agreement") && not disagreement

module _ {N J : Type 0} (numbers : Numbers N) (modality_of : J → Text)
    (to_lower_case : Text → Text) where
  unfoldable pub number_or_zero : Option N → N
  number_or_zero none = numbers.nought
  number_or_zero (some n) = n

  unfoldable pub tokens_of : SampleAttempt N J → N
  tokens_of a = numbers.add (number_or_zero a.input_tokens) (number_or_zero a.output_tokens)

  -- `attempts.reduce(step, 0)`.
  unfoldable pub sum_from : (N → SampleAttempt N J → N) → N → List (SampleAttempt N J) → N
  sum_from step sum [] = sum
  sum_from step sum (a ∷ attempts) = sum_from step (step sum a) attempts

  unfoldable pub averages : List (SampleAttempt N J) → Averages N
  averages attempts = record {
    latency =
        numbers.mean
          (sum_from (λ sum a. numbers.add sum (number_or_zero a.latency_ms)) numbers.nought
            attempts)
          (length (keep (λ a. is_some a.latency_ms) attempts));
    tokens =
        numbers.mean
          (sum_from
            (λ sum a.
              numbers.add (numbers.add sum (number_or_zero a.input_tokens))
                (number_or_zero a.output_tokens))
            numbers.nought attempts)
          (length attempts);
    cost =
        numbers.mean
          (sum_from (λ sum a. numbers.add sum (number_or_zero a.estimated_cost)) numbers.nought
            attempts)
          (length attempts);
  }

  unfoldable pub is_anomalous : Averages N → Text → SampleAttempt N J → Bool
  is_anomalous means filter a =
      is_all filter
      || text_eq filter (codes "latency")
        && numbers.is_over_twice (number_or_zero a.latency_ms) means.latency
      || text_eq filter (codes "tokens") && numbers.is_over_twice (tokens_of a) means.tokens
      || text_eq filter (codes "cost")
        && numbers.is_over_twice (number_or_zero a.estimated_cost) means.cost

  unfoldable pub is_correct : Option N → Bool
  is_correct none = false
  is_correct (some score) = numbers.is_one score

  unfoldable pub passes_correctness : Text → SampleAttempt N J → Bool
  passes_correctness filter a =
      is_all filter
      || text_eq filter (codes "correct") && is_correct a.score
      || text_eq filter (codes "incorrect") && not (is_correct a.score)

  unfoldable pub searchable : SampleAttempt N J → Text
  searchable a = to_lower_case (
      a.sample_id
      ++ 32 ∷ or_else a.parsed_prediction []
      ++ 32 ∷ or_else a.error_type []
      ++ 32 ∷ or_else a.error_message [])

  unfoldable pub matches : Averages N → EvidenceFilters → SampleAttempt N J → Bool
  matches means f a =
      equals f.status (some a.status)
      && passes_correctness f.correctness a
      && equals f.capability (metadata a.sample_metadata (codes "capability"))
      && equals f.modality (some (modality_of a.input_snapshot))
      && equals f.language (metadata a.sample_metadata (codes "language"))
      && equals f.difficulty (metadata a.sample_metadata (codes "difficulty"))
      && passes_error f.error_kind a.error_type
      && passes_judge f.judge_state a.judge_disagreement
      && equals f.review_state (some (review_name a.human_review_status))
      && is_anomalous means f.anomaly a
      && contains (searchable a) (to_lower_case (trim f.query))

  unfoldable pub filtered : EvidenceFilters → List (SampleAttempt N J) → List (SampleAttempt N J)
  filtered f attempts = keep (matches (averages attempts) f) attempts
