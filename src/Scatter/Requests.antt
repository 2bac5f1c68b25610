-- ===== src/Scatter/Requests.antt =====
-- The requests of the evidence scatter: an answer counts only for the request made last.
use llm_evaluation.Prelude.{
  ℕ, ◌+◌, ◌≡◌, ◌≢◌, inl, inr, refl, ==_iff, Option-cases, ◌≤◌, ◌<◌, Bool, if◌then◌else◌, Option,
  none, some, List, [], ◌∷◌, Text, arith,
}
use llm_evaluation.Types.Analytics.{ScatterResponse}
use llm_evaluation.Scatter.{
  ScatterFilterState, ScatterState, query_scatter, answered, failed, submit, reset, toggle_run,
}

pub data Event (N : Type 0) : Type 0 where
  edit : (ScatterFilterState → ScatterFilterState) → Event N
  select_all : Bool → Event N
  toggle : List Text → Text → Bool → Event N
  submitted : Text → Event N
  reset_all retry disposed : Event N
  respond : ℕ → ScatterResponse N → Event N
  fail : ℕ → Text → Event N

module _ {N : Type 0} (number : Text → Option N) (five_hundred : N) where
  unfoldable pub step : Event N → ScatterState N → ScatterState N
  step (edit change) s = record s { filters = change s.filters }
  step (select_all checked) s = record s { selected_run_ids = if checked then none else some [] }
  step (toggle options id checked) s = record s {
    selected_run_ids = toggle_run options id checked s.selected_run_ids;
  }
  step (submitted choose_run) s = submit number five_hundred choose_run s
  step reset_all s = reset number five_hundred s
  step retry s = query_scatter s.last_query s
  step disposed s = record s { latest_request = s.latest_request + 1 }
  step (respond request next) s = answered request next s
  step (fail request message) s = failed request message s

  abbrev pub run : List (Event N) → ScatterState N → ScatterState N
  run [] s = s
  run (e ∷ events) s = run events (step e s)

  submit_le :
      (choose_run : Text) (s : ScatterState N)
      → s.latest_request ≤ (submit number five_hundred choose_run s).latest_request
  unfolding submit query_scatter
  submit_le choose_run s = ground arith

  step-latest_request_le :
      (e : Event N) (s : ScatterState N) → s.latest_request ≤ (step e s).latest_request
  unfolding step answered failed reset query_scatter
  step-latest_request_le (edit change) s = omega arith
  step-latest_request_le (select_all checked) s = omega arith
  step-latest_request_le (toggle options id checked) s = omega arith
  step-latest_request_le (submitted choose_run) s = submit_le choose_run s
  step-latest_request_le reset_all s = omega arith
  step-latest_request_le retry s = omega arith
  step-latest_request_le disposed s = omega arith
  step-latest_request_le (respond request next) s = ground arith
  step-latest_request_le (fail request message) s = ground arith

  run-latest_request_le :
      (events : List (Event N)) (s : ScatterState N)
      → s.latest_request ≤ (run events s).latest_request
  run-latest_request_le [] s = omega arith
  run-latest_request_le (e ∷ events) s =
      omega (arith, step-latest_request_le e s, run-latest_request_le events (step e s))

  stale :
      (request : ℕ) (s : ScatterState N) (next : ScatterResponse N) (message : Text)
      → request < s.latest_request
      → (step (respond request next) s ≡ s) × (step (fail request message) s ≡ s)
  unfolding step answered failed
  stale request s next message h = ground arith

  -- What makes a new request or closes the scatter. A choice of no run is not submitted.
  unfoldable pub Supersedes : Event N → ScatterState N → Type 0
  Supersedes (submitted choose_run) s = s.selected_run_ids ≢ some []
  Supersedes reset_all s = Unit
  Supersedes retry s = Unit
  Supersedes disposed s = Unit
  Supersedes e s = ⊥

  submit_lt :
      (choose_run : Text) (s : ScatterState N)
      → s.selected_run_ids ≢ some []
      → s.latest_request < (submit number five_hundred choose_run s).latest_request
  unfolding submit query_scatter
  submit_lt choose_run s h = elim (Option-cases s.selected_run_ids) [
    | inl e ↦ rw e (omega arith)
    | inr ([], e) ↦ absurd (h e)
    | inr (id ∷ ids, e) ↦ rw e (omega arith)
  ]

  step-latest_request_lt :
      (e : Event N) (s : ScatterState N)
      → Supersedes e s
      → s.latest_request < (step e s).latest_request
  unfolding Supersedes step reset query_scatter
  step-latest_request_lt (submitted choose_run) s h = submit_lt choose_run s h
  step-latest_request_lt reset_all s h = omega arith
  step-latest_request_lt retry s h = omega arith
  step-latest_request_lt disposed s h = omega arith
  step-latest_request_lt (edit change) s h = absurd h
  step-latest_request_lt (select_all checked) s h = absurd h
  step-latest_request_lt (toggle options id checked) s h = absurd h
  step-latest_request_lt (respond request next) s h = absurd h
  step-latest_request_lt (fail request message) s h = absurd h

  step-respond :
      (s : ScatterState N) (next : ScatterResponse N)
      → (step (respond s.latest_request next) s).response ≡ some next
  unfolding step answered
  step-respond s next = rw ((==_iff s.latest_request s.latest_request).1 refl)

  -- Once a new request is made or the scatter is closed, nothing that happens later lets the answer or
  -- the failure of the request before, or of an earlier one, change anything; the answer to the
  -- request with the last number is taken.
  pub step-respond-stale :
      (events : List (Event N)) (e : Event N) (s : ScatterState N) (request : ℕ)
      (next : ScatterResponse N) (message : Text)
      → Supersedes e s
      → request ≤ s.latest_request
      → let t = run events (step e s) in
        (step (respond request next) t ≡ t)
        × (step (fail request message) t ≡ t)
        × ((step (respond t.latest_request next) t).response ≡ some next)
  step-respond-stale events e s request next message made old =
      let t = run events (step e s) in
      let higher = step-latest_request_lt e s made in
      let kept = run-latest_request_le events (step e s) in
      let (answer, failure) = stale request t next message (omega (arith, old, higher, kept)) in
      (answer, failure, step-respond t next)
