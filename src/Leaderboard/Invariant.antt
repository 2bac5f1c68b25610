-- ===== src/Leaderboard/Invariant.antt =====
-- What holds of the leaderboard page after any sequence of events.
use Prim.Native.Nat.{max}
use llm_evaluation.Prelude.{
  ℕ, ◌+◌, ◌-◌, ◌≡◌, ◌≤◌, refl, Bool, true, false, ◌||◌, ◌==◌, leb, if◌then◌else◌, Option, none,
  some, List, [], ◌∷◌, is_some, codes, text_eq, opt_eq, arith, Option-cases, inl, inr,
}
use llm_evaluation.Types.Analytics.{LeaderboardQuery}
use llm_evaluation.Leaderboard.{empty_filters, empty_query, query_from_filters, filters_from_query}
use llm_evaluation.Leaderboard.Session.{
  LeaderboardPage, default_page_size, load, set_query, open_page, cleared, Event, apply, reset,
  previous, next, retry, toggle_status, edit, choose_sort, header, choose_direction, clear, respond,
  fail, shown_page, shown_total, base_page, step, keep_sort, first_page, sorted_by, unsorted, flip,
  start_direction,
}

-- A page from 1 on.
abbrev pub IsPage : Option ℕ → Type 0
IsPage none = ⊥
IsPage (some page) = 1 ≤ page

-- The query has a page from 1 on and the page size, and a direction exactly when it has a sort; a
-- page that is not loading has an answer or an error.
pub record IsValid (s : LeaderboardPage) : Type 0 where
  pub page : IsPage s.query.page
  pub size : s.query.page_size ≡ some default_page_size
  pub sorted : is_some s.query.sort ≡ is_some s.query.direction
  pub settled : s.loading ≡ false → (is_some s.result || is_some s.error) ≡ true

load-IsValid :
    (s : LeaderboardPage) (q : LeaderboardQuery)
    → IsPage q.page
    → q.page_size ≡ some default_page_size
    → is_some q.sort ≡ is_some q.direction
    → IsValid (set_query q s)
unfolding set_query load
load-IsValid s q p size sorted = record {
  page = p;
  size = size;
  sorted = sorted;
  settled = λ h. cc;
}

pub open_page-IsValid : IsValid open_page
unfolding open_page load
open_page-IsValid = record { page = omega arith; size = refl; sorted = refl; settled = λ h. cc }

keep_sort-sorted :
    (current q : LeaderboardQuery)
    → is_some current.sort ≡ is_some current.direction
    → is_some q.sort ≡ is_some q.direction
    → is_some (keep_sort current q).sort ≡ is_some (keep_sort current q).direction
keep_sort-sorted current q h k = elim (Option-cases current.sort) [
  | inl e ↦ rw e k
  | inr (sort, e) ↦ cc
]

if-IsValid :
    (b : Bool) (s t : LeaderboardPage)
    → (b ≡ true → IsValid s)
    → (b ≡ false → IsValid t)
    → IsValid (if b then s else t)
if-IsValid true s t h k = h refl
if-IsValid false s t h k = k refl

pub step-IsValid : (e : Event) (s : LeaderboardPage) → IsValid s → IsValid (step e s)
unfolding step set_query load query_from_filters
step-IsValid apply s v =
    if-IsValid s.loading _ _ (λ e. v)
      (λ e. (load-IsValid s (first_page (query_from_filters s.draft)) (omega arith) refl refl))
step-IsValid reset s v =
    load-IsValid (record s { draft = empty_filters }) (first_page empty_query) (omega arith) refl
      refl
step-IsValid (toggle_status status) s v = record {
  page = v.page;
  size = v.size;
  sorted = v.sorted;
  settled = v.settled;
}
step-IsValid (edit key x) s v = record {
  page = v.page;
  size = v.size;
  sorted = v.sorted;
  settled = v.settled;
}
step-IsValid (choose_sort sort) s v =
    if-IsValid (text_eq sort (codes "default")) _ _
      (λ e. (load-IsValid s (unsorted s.query) (omega arith) v.size refl))
      (λ e.
        (load-IsValid s (sorted_by s.query sort (start_direction sort)) (omega arith) v.size refl))
step-IsValid (header sort) s v =
    load-IsValid s
      (sorted_by s.query sort
        (if opt_eq s.query.sort (some sort) then flip s.query.direction else start_direction sort))
      (omega arith) v.size refl
step-IsValid (choose_direction direction) s v =
    if-IsValid (is_some s.query.sort) _ _
      (λ e.
        (load-IsValid s (record s.query { direction = some direction; page = some 1 }) (omega arith)
          v.size e))
      (λ e. v)
step-IsValid (clear key status) s v =
    let after = cleared key status (filters_from_query s.query) in
    load-IsValid (record s { draft = after })
      (first_page (keep_sort s.query (query_from_filters after))) (omega arith) refl
      (keep_sort-sorted s.query (query_from_filters after) v.sorted refl)
step-IsValid previous s v =
    if-IsValid (s.loading || leb (shown_page s) 1) _ _ (λ e. v)
      (λ e.
        (load-IsValid s (record s.query { page = some (max 1 (base_page s - 1)) }) (omega arith)
          v.size v.sorted))
step-IsValid next s v =
    if-IsValid (s.loading || leb (shown_total s) (shown_page s)) _ _ (λ e. v)
      (λ e.
        (load-IsValid s (record s.query { page = some (base_page s + 1) }) (omega arith) v.size
          v.sorted))
step-IsValid retry s v = load-IsValid s s.query v.page v.size v.sorted
step-IsValid (respond request r) s v =
    if-IsValid (request == s.generation) _ _
      (λ e. (record { page = v.page; size = v.size; sorted = v.sorted; settled = λ h. refl }))
      (λ e. v)
step-IsValid (fail request message) s v =
    if-IsValid (request == s.generation) _ _
      (λ e. (record {
        page = v.page;
        size = v.size;
        sorted = v.sorted;
        settled = λ h. ground arith;
      }))
      (λ e. v)

-- The page after a sequence of events.
abbrev pub run : List Event → LeaderboardPage → LeaderboardPage
run [] s = s
run (e ∷ events) s = run events (step e s)

run-IsValid : (events : List Event) (s : LeaderboardPage) → IsValid s → IsValid (run events s)
run-IsValid [] s v = v
run-IsValid (e ∷ events) s v = run-IsValid events (step e s) (step-IsValid e s v)

-- After any sequence of events from the opening on, the page is well formed: its query asks for a
-- page from 1 on with the page size, it has a direction exactly when it has a sort, and a page that is
-- not loading shows an answer or an error.
pub run-open_page-IsValid : (events : List Event) → IsValid (run events open_page)
run-open_page-IsValid events = run-IsValid events open_page open_page-IsValid
