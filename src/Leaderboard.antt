-- ===== src/Leaderboard.antt =====
-- frontend/src/components/pages/LeaderboardPage.tsx: the filters, the query and the paging of the
-- leaderboard. A response of the service is the number of its page and of all pages.
pub mod Filters
pub mod Session
pub mod Invariant
pub mod Races
pub mod Statuses
mod Examples
use llm_evaluation.Prelude.{
  ℕ, ◌+◌, ◌-◌, Bool, true, false, not, ◌&&◌, ◌||◌, leb, ◌==◌, if◌then◌else◌, Option, none, some,
  List, [], ◌∷◌, ◌++◌, map, or_else, concat, is_some, Text, codes, text_eq, includes, truthy,
  non_empty, take, keep,
}
use llm_evaluation.Types.Datasets.{EvaluationType}
use llm_evaluation.Types.Analytics.{LeaderboardQuery, Direction, asc, desc}
use llm_evaluation.Metrics.{metric_ids, metric_key}

-- `evaluationType` is one of the types or "", which is `none`.
pub record FilterState : Type 0 where
  pub dataset : Text
  pub model_endpoint_id : Text
  pub statuses : List Text
  pub created_from : Text
  pub created_to : Text
  pub capability : Text
  pub language : Text
  pub evaluation_type : Option EvaluationType
  pub available_metric : Text

abbrev pub empty_filters : FilterState
empty_filters = record {
  dataset = [];
  model_endpoint_id = [];
  statuses = [];
  created_from = [];
  created_to = [];
  capability = [];
  language = [];
  evaluation_type = none;
  available_metric = [];
}

pub data FilterKey : Type 0 where
  dataset model_endpoint_id statuses created_from created_to : FilterKey
  capability language evaluation_type available_metric : FilterKey

-- `FilterState[K]`.
abbrev pub FilterValue : FilterKey → Type 0
FilterValue statuses = List Text
FilterValue evaluation_type = Option EvaluationType
FilterValue _ = Text

pub set_filter : (key : FilterKey) → FilterValue key → FilterState → FilterState
set_filter dataset v f = record f { dataset = v }
set_filter model_endpoint_id v f = record f { model_endpoint_id = v }
set_filter statuses v f = record f { statuses = v }
set_filter created_from v f = record f { created_from = v }
set_filter created_to v f = record f { created_to = v }
set_filter capability v f = record f { capability = v }
set_filter language v f = record f { language = v }
set_filter evaluation_type v f = record f { evaluation_type = v }
set_filter available_metric v f = record f { available_metric = v }

-- `f[key]`.
pub get_filter : (key : FilterKey) → FilterState → FilterValue key
get_filter dataset f = f.dataset
get_filter model_endpoint_id f = f.model_endpoint_id
get_filter statuses f = f.statuses
get_filter created_from f = f.created_from
get_filter created_to f = f.created_to
get_filter capability f = f.capability
get_filter language f = f.language
get_filter evaluation_type f = f.evaluation_type
get_filter available_metric f = f.available_metric

-- `{}`, and `...(text ? { key: text + suffix } : {})`.
abbrev pub empty_query : LeaderboardQuery
empty_query = record {
  dataset = none;
  model_endpoint_id = none;
  statuses = none;
  created_from = none;
  created_to = none;
  capability = none;
  language = none;
  evaluation_type = none;
  available_metric = none;
  sort = none;
  direction = none;
  page = none;
  page_size = none;
}

abbrev pub with_suffix : Text → Text → Option Text
with_suffix [] suffix = none
with_suffix (c ∷ s) suffix = some (c ∷ s ++ suffix)

abbrev pub non_empty_list : List Text → Option (List Text)
non_empty_list [] = none
non_empty_list (t ∷ ts) = some (t ∷ ts)

pub query_from_filters : FilterState → LeaderboardQuery
query_from_filters f = record empty_query {
  dataset = non_empty f.dataset;
  model_endpoint_id = non_empty f.model_endpoint_id;
  statuses = non_empty_list f.statuses;
  created_from = with_suffix f.created_from (codes "T00:00:00Z");
  created_to = with_suffix f.created_to (codes "T23:59:59.999Z");
  capability = non_empty f.capability;
  language = non_empty f.language;
  evaluation_type = f.evaluation_type;
  available_metric = non_empty f.available_metric;
}

-- `text?.slice(0, 10) ?? ""`.
abbrev pub date_part : Option Text → Text
date_part none = []
date_part (some text) = take 10 text

pub filters_from_query : LeaderboardQuery → FilterState
filters_from_query q = record {
  dataset = or_else q.dataset [];
  model_endpoint_id = or_else q.model_endpoint_id [];
  statuses = or_else q.statuses [];
  created_from = date_part q.created_from;
  created_to = date_part q.created_to;
  capability = or_else q.capability [];
  language = or_else q.language [];
  evaluation_type = q.evaluation_type;
  available_metric = or_else q.available_metric [];
}

pub record FilterChip : Type 0 where
  pub key : FilterKey
  pub label : Text
  pub status : Option Text

-- A chip for a field that is present and not empty; `shown` is the text behind the label.
abbrev pub chip_for : FilterKey → Text → (Text → Text) → Option Text → List FilterChip
chip_for key label shown none = []
chip_for key label shown (some []) = []
chip_for key label shown (some (c ∷ s)) =
    record { key = key; label = label ++ codes ": " ++ shown (c ∷ s); status = none } ∷ []

abbrev pub status_chips : Text → Option (List Text) → List FilterChip
status_chips label none = []
status_chips label (some ts) =
    map
      (λ status. record {
        key = statuses;
        label = label ++ codes ": " ++ status;
        status = some status;
      })
      ts

abbrev pub type_name : EvaluationType → Text
type_name EvaluationType.classification = codes "classification"
type_name EvaluationType.generation = codes "generation"
type_name EvaluationType.code = codes "code"
type_name EvaluationType.language_modeling = codes "language_modeling"
type_name EvaluationType.custom = codes "custom"

abbrev pub type_chip : Text → Option EvaluationType → List FilterChip
type_chip label none = []
type_chip label (some t) =
    record { key = evaluation_type; label = label ++ codes ": " ++ type_name t; status = none } ∷ []

-- `copy` gives the label of a key in the language of the workspace.
abbrev pub chip_lists : (FilterKey → Text) → LeaderboardQuery → List (List FilterChip)
chip_lists copy q =
    chip_for dataset (copy dataset) (λ s. s) q.dataset
    ∷ chip_for model_endpoint_id (copy model_endpoint_id) (λ s. s) q.model_endpoint_id
    ∷ status_chips (copy statuses) q.statuses
    ∷ chip_for created_from (copy created_from) (take 10) q.created_from
    ∷ chip_for created_to (copy created_to) (take 10) q.created_to
    ∷ chip_for capability (copy capability) (λ s. s) q.capability
    ∷ chip_for language (copy language) (λ s. s) q.language
    ∷ type_chip (copy evaluation_type) q.evaluation_type
    ∷ chip_for available_metric (copy available_metric) (λ s. s) q.available_metric
    ∷ []

pub filter_chips : (FilterKey → Text) → LeaderboardQuery → List FilterChip
filter_chips copy q = concat (chip_lists copy q)

pub numeric_sort : Text → Bool
numeric_sort field =
    includes
      (codes "score"
        ∷ codes "average_latency_ms"
        ∷ codes "p95_latency_ms"
        ∷ codes "estimated_cost"
        ∷ codes "sample_count"
        ∷ map metric_key metric_ids)
      field
