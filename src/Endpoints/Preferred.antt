-- ===== src/Endpoints/Preferred.antt =====
-- An endpoint that was just created is the one that the inventory shows.
use llm_evaluation.Prelude.{
  ◌≡◌, ◌⊎◌, inl, inr, refl, ap, Bool, true, false, ◌||◌, some, List, [], ◌∷◌, All, truthy, Text,
  Bool-cases, any, arith,
}
use llm_evaluation.Prompts.{Json}
use llm_evaluation.Endpoints.{Formats}
use llm_evaluation.Endpoints.Session.{State, Event, has_endpoint, first_id}
use llm_evaluation.Endpoints.Session as Session
use llm_evaluation.Endpoints.Inventory.{
  Page, PageEvent, routed, open_inventory, close_inventory, select, commit, handle, page_step, run,
}
use llm_evaluation.Endpoints.Commit.{
  Allows, IsShown, IsComing, is_due, commit-IsShown, commit-preferred, commit-Alike,
}

-- The first of two tests holds or the second, or something else does.
either-later : {P : Type 0} (a b : Bool) → ((a || b) ≡ true) ⊎ P → (b ≡ true) ⊎ ((a ≡ true) ⊎ P)
either-later a b (inr h) = inr (inr h)
either-later true b (inl h) = inr (inl refl)
either-later false b (inl h) = inl h

module _ {N J R S : Type 0} (id : Text) where
  abbrev pub opens : PageEvent N J R S → Bool
  opens open_inventory = true
  opens e = false

  abbrev pub lists : PageEvent N J R S → Bool
  lists (routed (Event.listed endpoints)) = true
  lists e = false

  module _ (formats : Formats N J) (json : Json J) where
    handle-IsComing :
        (e : PageEvent N J R S) (p : Page N J R S)
        → (Allows id) e
        → IsComing id p
        → IsComing id (handle formats json e p)
    unfolding handle Session.step
    handle-IsComing (routed (Event.created other)) p allowed h = inr (ap some allowed)
    handle-IsComing (routed (Event.listed endpoints)) p allowed (inl h) = inl (record {
      selected = h.selected;
      listed = allowed;
      is_open = h.is_open;
      consumed = h.consumed;
    })
    handle-IsComing open_inventory p allowed (inl h) =
        let same : handle formats json open_inventory p ≡ p = rw h.is_open in rw same (inl h)
    handle-IsComing open_inventory p allowed (inr h) = elim (Bool-cases p.is_mounted) [
      | inl k ↦ rw k (inr h)
      | inr k ↦ rw k (inr h)
    ]
    handle-IsComing close_inventory p allowed h = elim allowed [ ]
    handle-IsComing (select other) p allowed (inl h) =
        let same : handle formats json (select other) p
            ≡ record p { selected_endpoint_id = some other } =
          rw h.is_open in
        rw same (
          inl (record {
            selected = ap some allowed;
            listed = h.listed;
            is_open = h.is_open;
            consumed = h.consumed;
          }))
    handle-IsComing (select other) p allowed (inr h) = elim (Bool-cases p.is_mounted) [
      | inl k ↦ rw k (inr h)
      | inr k ↦ rw k (inr h)
    ]
    handle-IsComing (routed e) p allowed (inl h) = inl (record {
      selected = h.selected;
      listed = h.listed;
      is_open = h.is_open;
      consumed = h.consumed;
    })
    handle-IsComing (routed e) p allowed (inr h) = inr h

    -- Once open, the inventory stays open; once listed, the endpoint stays listed.
    handle-opens :
        (e : PageEvent N J R S) (p : Page N J R S)
        → (Allows id) e
        → (opens e ≡ true) ⊎ (p.is_mounted ≡ true)
        → (handle formats json e p).is_mounted ≡ true
    unfolding handle
    handle-opens (routed e) p allowed (inl h) = absurd cc
    handle-opens (routed e) p allowed (inr h) = h
    handle-opens open_inventory p allowed h = ground arith
    handle-opens close_inventory p allowed h = absurd allowed
    handle-opens (select other) p allowed h = ground arith

    handle-lists :
        (e : PageEvent N J R S) (p : Page N J R S)
        → (Allows id) e
        → (lists e ≡ true) ⊎ (has_endpoint id p.route.endpoints ≡ true)
        → has_endpoint id (handle formats json e p).route.endpoints ≡ true
    unfolding handle Session.step
    handle-lists (routed (Event.listed endpoints)) p allowed h = allowed
    handle-lists (routed e) p allowed (inr h) = h
    handle-lists e p allowed (inl h) = absurd cc
    handle-lists open_inventory p allowed (inr h) = elim (Bool-cases p.is_mounted) [
      | inl k ↦ rw k h
      | inr k ↦ rw k h
    ]
    handle-lists close_inventory p allowed h = absurd allowed
    handle-lists (select other) p allowed (inr h) = elim (Bool-cases p.is_mounted) [
      | inl k ↦ rw k h
      | inr k ↦ rw k h
    ]

    -- What holds after each commit.
    abbrev IsNear : Page N J R S → Type 0
    IsNear p = IsShown id p ⊎ ((is_due id p ≡ false) × (p.route.preferred_endpoint_id ≡ some id))

    commit-IsNear : truthy id ≡ true → (p : Page N J R S) → IsComing id p → IsNear (commit p)
    unfolding is_due
    commit-IsNear full p (inl h) = inl (commit-IsShown id p h)
    commit-IsNear full p (inr h) = elim (commit-preferred id full p h) [
      | inl shown ↦ inl shown
      | inr (due, kept) ↦ let (up, list) = commit-Alike id p in inr (rw (up, list) due, kept)
    ]

    near : (p : Page N J R S) → IsNear p → IsComing id p
    near p (inl h) = inl h
    near p (inr h) = inr h.1

    run-IsNear :
        truthy id ≡ true
        → (es : List (PageEvent N J R S)) (p : Page N J R S) → All (Allows id) es
        → IsNear p
        → IsNear (run formats json es p)
    unfolding run page_step
    run-IsNear full [] p allowed h = h
    run-IsNear full (e ∷ es) p (here, later) h =
        run-IsNear full es (page_step formats json e p) later
          (commit-IsNear full (handle formats json e p) (handle-IsComing e p here (near p h)))

    run-opens :
        (es : List (PageEvent N J R S)) (p : Page N J R S)
        → All (Allows id) es
        → (any opens es ≡ true) ⊎ (p.is_mounted ≡ true)
        → (run formats json es p).is_mounted ≡ true
    unfolding run page_step
    run-opens [] p allowed (inl h) = absurd cc
    run-opens [] p allowed (inr h) = h
    run-opens (e ∷ es) p (here, later) h =
        let next = page_step formats json e p in
        elim (either-later (opens e) (any opens es) h) [
          | inl k ↦ run-opens es next later (inl k)
          | inr k ↦
              let kept = (commit-Alike id (handle formats json e p)).0 in
              run-opens es next later (inr (rw kept (handle-opens e p here k)))
        ]

    run-lists :
        (es : List (PageEvent N J R S)) (p : Page N J R S)
        → All (Allows id) es
        → (any lists es ≡ true) ⊎ (has_endpoint id p.route.endpoints ≡ true)
        → has_endpoint id (run formats json es p).route.endpoints ≡ true
    unfolding run page_step
    run-lists [] p allowed (inl h) = absurd cc
    run-lists [] p allowed (inr h) = h
    run-lists (e ∷ es) p (here, later) h =
        let next = page_step formats json e p in
        elim (either-later (lists e) (any lists es) h) [
          | inl k ↦ run-lists es next later (inl k)
          | inr k ↦
              let kept = (commit-Alike id (handle formats json e p)).1 in
              run-lists es next later (inr (rw kept (handle-lists e p here k)))
        ]

    -- After an endpoint is created, the inventory comes to show it and shows it from then on, in
    -- whatever order the list of the service arrives and the inventory is opened, and whatever else
    -- happens between: the lists have the endpoint, nothing else is created or selected and the
    -- inventory is not closed again.
    pub run-IsShown :
        (es : List (PageEvent N J R S)) (p : Page N J R S)
        → truthy id ≡ true
        → All (Allows id) es
        → any opens es ≡ true
        → any lists es ≡ true
        → IsShown id (run formats json (routed (Event.created id) ∷ es) p)
    unfolding run page_step handle Session.step is_due
    run-IsShown es p full allowed opened arrived =
        let first = page_step formats json (routed (Event.created id)) p in
        let start =
          commit-IsNear full (handle formats json (routed (Event.created id)) p) (inr refl) in
        let up = run-opens es first allowed (inl opened) in
        let listed = run-lists es first allowed (inl arrived) in
        elim (run-IsNear full es first allowed start) [
          | inl shown ↦ shown
          | inr (due, kept) ↦ absurd (cc (rw (up, listed) at due))
        ]
