-- ===== src/Leaderboard/Races.antt =====
-- Answers that come late: the page takes an answer only to the request that it made last.
use llm_evaluation.Prelude.{
  ℕ, ◌≡◌, ◌≤◌, ◌<◌, refl, some, Bool, true, false, ◌||◌, ◌==◌, ==_iff, leb, if◌then◌else◌, List, [],
  ◌∷◌, Text, codes, text_eq, is_some, arith,
}
use llm_evaluation.Leaderboard.Session.{
  PageInfo, LeaderboardPage, open_page, load, set_query, Event, apply, reset, previous, next, retry,
  toggle_status, edit, choose_sort, header, choose_direction, clear, respond, fail, step,
  shown_page, shown_total,
}
use llm_evaluation.Leaderboard.Invariant.{run}

if-ge :
    (b : Bool) (n : ℕ) (s t : LeaderboardPage)
    → n ≤ s.generation
    → n ≤ t.generation
    → n ≤ (if b then s else t).generation
if-ge true n s t h k = h
if-ge false n s t h k = k

-- A request is never numbered like an earlier one.
step-generation_le : (e : Event) (s : LeaderboardPage) → s.generation ≤ (step e s).generation
unfolding step set_query load
step-generation_le apply s = if-ge s.loading _ _ _ (omega arith) (omega arith)
step-generation_le reset s = omega arith
step-generation_le (toggle_status status) s = omega arith
step-generation_le (edit key x) s = omega arith
step-generation_le (choose_sort sort) s =
    if-ge (text_eq sort (codes "default")) _ _ _ (omega arith) (omega arith)
step-generation_le (header sort) s = omega arith
step-generation_le (choose_direction direction) s =
    if-ge (is_some s.query.sort) _ _ _ (omega arith) (omega arith)
step-generation_le (clear key status) s = omega arith
step-generation_le previous s =
    if-ge (s.loading || leb (shown_page s) 1) _ _ _ (omega arith) (omega arith)
step-generation_le next s =
    if-ge (s.loading || leb (shown_total s) (shown_page s)) _ _ _ (omega arith) (omega arith)
step-generation_le retry s = omega arith
step-generation_le (respond request r) s =
    if-ge (request == s.generation) _ _ _ (omega arith) (omega arith)
step-generation_le (fail request message) s =
    if-ge (request == s.generation) _ _ _ (omega arith) (omega arith)

run-generation_le :
    (events : List Event) (s : LeaderboardPage) → s.generation ≤ (run events s).generation
run-generation_le [] s = omega arith
run-generation_le (e ∷ events) s =
    omega (arith, step-generation_le e s, run-generation_le events (step e s))

stale :
    (request : ℕ) (s : LeaderboardPage) (r : PageInfo) (message : Text)
    → request < s.generation
    → (step (respond request r) s ≡ s) × (step (fail request message) s ≡ s)
unfolding step
stale request s r message h = ground arith

-- The controls that make a new request, where they can be used.
unfoldable pub Supersedes : Event → LeaderboardPage → Type 0
Supersedes apply s = s.loading ≡ false
Supersedes reset s = Unit
Supersedes (choose_sort sort) s = Unit
Supersedes (header sort) s = Unit
Supersedes (choose_direction direction) s = is_some s.query.sort ≡ true
Supersedes (clear key status) s = Unit
Supersedes previous s = (s.loading || leb (shown_page s) 1) ≡ false
Supersedes next s = (s.loading || leb (shown_total s) (shown_page s)) ≡ false
Supersedes retry s = Unit
Supersedes e s = ⊥

step-generation_lt :
    (e : Event) (s : LeaderboardPage) → Supersedes e s → s.generation < (step e s).generation
unfolding Supersedes step set_query load
step-generation_lt apply s h = ground (arith, h)
step-generation_lt reset s h = omega arith
step-generation_lt (choose_sort sort) s h = ground arith
step-generation_lt (header sort) s h = omega arith
step-generation_lt (choose_direction direction) s h = ground (arith, h)
step-generation_lt (clear key status) s h = omega arith
step-generation_lt previous s h = rw h (omega arith)
step-generation_lt next s h = rw h (omega arith)
step-generation_lt retry s h = omega arith
step-generation_lt (toggle_status status) s h = absurd h
step-generation_lt (edit key x) s h = absurd h
step-generation_lt (respond request r) s h = absurd h
step-generation_lt (fail request message) s h = absurd h

step-respond :
    (s : LeaderboardPage) (r : PageInfo) → (step (respond s.generation r) s).result ≡ some r
unfolding step
step-respond s r = rw ((==_iff s.generation s.generation).1 refl)

-- Once a control of the page makes a new request, nothing that happens later lets the answer or the
-- error of the request before, or of an earlier one, change anything; the answer to the request that
-- is made last is taken.
pub step-respond-late :
    (events later : List Event) (e : Event) (request : ℕ) (r : PageInfo) (message : Text)
    → Supersedes e (run events open_page)
    → request ≤ (run events open_page).generation
    → let s = run later (step e (run events open_page)) in
      (step (respond request r) s ≡ s)
      × (step (fail request message) s ≡ s)
      × ((step (respond s.generation r) s).result ≡ some r)
step-respond-late events later e request r message made old =
    let s = run events open_page in
    let t = run later (step e s) in
    let higher = step-generation_lt e s made in
    let kept = run-generation_le later (step e s) in
    let (answer, error) = stale request t r message (omega (arith, old, higher, kept)) in
    (answer, error, step-respond t r)
