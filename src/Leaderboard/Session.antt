-- ===== src/Leaderboard/Session.antt =====
-- The state of the leaderboard page and what its controls do. The effect that loads the query runs
-- again for each new query and each retry, and disposes of the request before: `generation` counts
-- the requests, and an answer carries the number of its request.
use Prim.Native.Nat.{max}
use llm_evaluation.Prelude.{
  ℕ, ◌+◌, ◌-◌, Bool, true, false, not, ◌||◌, leb, ◌==◌, if◌then◌else◌, Option, none, some, List, [],
  ◌∷◌, ◌++◌, or_else, is_some, Text, codes, text_eq, opt_eq, includes, keep,
}
use llm_evaluation.Types.Analytics.{LeaderboardQuery, Direction, asc, desc}
use llm_evaluation.Leaderboard.{
  FilterState, FilterKey, FilterValue, empty_filters, set_filter, get_filter, empty_query,
  query_from_filters, filters_from_query, numeric_sort,
}

pub record PageInfo : Type 0 where
  pub page : ℕ
  pub total_pages : ℕ

pub record LeaderboardPage : Type 0 where
  pub draft : FilterState
  pub query : LeaderboardQuery
  pub result : Option PageInfo
  pub loading : Bool
  pub error : Option Text
  pub generation : ℕ

abbrev pub default_page_size : ℕ
default_page_size = 50

abbrev pub first_page : LeaderboardQuery → LeaderboardQuery
first_page q = record q { page = some 1; page_size = some default_page_size }

-- The effect of a new query: the request before is disposed of, and a new one is made.
unfoldable pub load : LeaderboardPage → LeaderboardPage
load s = record s { loading = true; error = none; generation = s.generation + 1 }

unfoldable pub set_query : LeaderboardQuery → LeaderboardPage → LeaderboardPage
set_query q s = load (record s { query = q })

-- The first rendering, with its first request.
unfoldable pub open_page : LeaderboardPage
open_page = load (record {
  draft = empty_filters;
  query = first_page empty_query;
  result = none;
  loading = true;
  error = none;
  generation = 0;
})

unfoldable pub toggle : Text → List Text → List Text
toggle status ts =
    if includes ts status then keep (λ t. not (text_eq t status)) ts else ts ++ status ∷ []

abbrev pub start_direction : Text → Direction
start_direction sort = if numeric_sort sort then desc else asc

abbrev pub flip : Option Direction → Direction
flip (some desc) = asc
flip _ = desc

abbrev pub sorted_by : LeaderboardQuery → Text → Direction → LeaderboardQuery
sorted_by q sort direction = record q {
  sort = some sort;
  direction = some direction;
  page = some 1;
}

abbrev pub unsorted : LeaderboardQuery → LeaderboardQuery
unsorted q = record q { sort = none; direction = none; page = some 1 }

-- What `clearFilter` makes of the filters that the query applies.
unfoldable pub cleared : FilterKey → Option Text → FilterState → FilterState
cleared key none f = set_filter key (get_filter key empty_filters) f
cleared key (some []) f = set_filter key (get_filter key empty_filters) f
cleared key (some (c ∷ t)) f = record f {
  statuses = keep (λ s. not (text_eq s (c ∷ t))) f.statuses;
}

-- `{ ...query, ...(current.sort ? { sort, direction } : {}) }`.
abbrev pub keep_sort : LeaderboardQuery → LeaderboardQuery → LeaderboardQuery
keep_sort current q = elim current.sort [
  | none ↦ q
  | some sort ↦ record q { sort = some sort; direction = current.direction }
]

pub data Event : Type 0 where
  apply reset previous next retry : Event
  toggle_status : Text → Event
  edit : (key : FilterKey) → FilterValue key → Event
  choose_sort header : Text → Event
  choose_direction : Direction → Event
  clear : FilterKey → Option Text → Event
  respond : ℕ → PageInfo → Event
  fail : ℕ → Text → Event

abbrev pub shown_page : LeaderboardPage → ℕ
shown_page s = elim s.result [ none ↦ 1 | some r ↦ r.page ]

abbrev pub shown_total : LeaderboardPage → ℕ
shown_total s = elim s.result [ none ↦ 0 | some r ↦ r.total_pages ]

-- `result?.page ?? current.page ?? 1`.
abbrev pub base_page : LeaderboardPage → ℕ
base_page s = elim s.result [ none ↦ or_else s.query.page 1 | some r ↦ r.page ]

unfoldable pub step : Event → LeaderboardPage → LeaderboardPage
step apply s = if s.loading then s else set_query (first_page (query_from_filters s.draft)) s
step reset s = set_query (first_page empty_query) (record s { draft = empty_filters })
step (toggle_status status) s = record s {
  draft = record s.draft { statuses = toggle status s.draft.statuses };
}
step (edit key v) s = record s { draft = set_filter key v s.draft }
step (choose_sort sort) s =
    if text_eq sort (codes "default")
    then set_query (unsorted s.query) s
    else set_query (sorted_by s.query sort (start_direction sort)) s
step (header sort) s =
    set_query
      (sorted_by s.query sort
        (if opt_eq s.query.sort (some sort) then flip s.query.direction else start_direction sort))
      s
step (choose_direction direction) s =
    if is_some s.query.sort
    then set_query (record s.query { direction = some direction; page = some 1 }) s
    else s
step (clear key status) s =
    let next = cleared key status (filters_from_query s.query) in
    set_query (first_page (keep_sort s.query (query_from_filters next))) (record s { draft = next })
step previous s =
    if s.loading || leb (shown_page s) 1
    then s
    else set_query (record s.query { page = some (max 1 (base_page s - 1)) }) s
step next s =
    if s.loading || leb (shown_total s) (shown_page s)
    then s
    else set_query (record s.query { page = some (base_page s + 1) }) s
step retry s = load s
step (respond request r) s =
    if request == s.generation then record s { result = some r; loading = false } else s
step (fail request message) s =
    if request == s.generation then record s { error = some message; loading = false } else s
