-- ===== src/Endpoints/Commit.antt =====
-- What a commit of the inventory does about an endpoint that is preferred.
use llm_evaluation.Prelude.{
  ◌≡◌, ◌⊎◌, inl, inr, refl, Bool, true, false, ◌&&◌, Option, none, some, truthy, Text, Bool-cases,
}
use llm_evaluation.Endpoints.Session.{Event, has_endpoint}
use llm_evaluation.Endpoints.Inventory.{
  Page, PageEvent, routed, open_inventory, close_inventory, select, selected_id, prefer, commit,
}

module _ {N J R S : Type 0} (id : Text) where
  -- The events that may come between: nothing else is created, no other endpoint is chosen, the
  -- inventory stays open, and the lists of the service have the endpoint.
  abbrev pub Allows : PageEvent N J R S → Type 0
  Allows (routed (Event.created other)) = other ≡ id
  Allows (routed (Event.listed endpoints)) = has_endpoint id endpoints ≡ true
  Allows (routed e) = Unit {0}
  Allows open_inventory = Unit {0}
  Allows close_inventory = ⊥
  Allows (select other) = other ≡ id

  -- The inventory shows the endpoint.
  pub record IsShown (p : Page N J R S) : Type 0 where
    pub selected : p.selected_endpoint_id ≡ some id
    pub listed : has_endpoint id p.route.endpoints ≡ true
    pub is_open : p.is_mounted ≡ true
    pub consumed : p.route.preferred_endpoint_id ≡ none

  -- It shows the endpoint, or will when it is open and has it in its list.
  abbrev pub IsComing : Page N J R S → Type 0
  IsComing p = IsShown p ⊎ (p.route.preferred_endpoint_id ≡ some id)

  unfoldable pub is_due : Page N J R S → Bool
  is_due p = p.is_mounted && has_endpoint id p.route.endpoints

  pub commit-IsShown : (p : Page N J R S) → IsShown p → IsShown (commit p)
  unfolding commit prefer selected_id
  commit-IsShown p h =
      let same : commit p ≡ record p { selected_endpoint_id = some id } =
        rw (h.is_open, h.consumed, h.selected, h.listed) in
      rw same
        (record { selected = refl; listed = h.listed; is_open = h.is_open; consumed = h.consumed })

  -- With a preference the commit selects the endpoint as soon as it can.
  pub commit-preferred :
      truthy id ≡ true
      → (p : Page N J R S) → p.route.preferred_endpoint_id ≡ some id
      → (IsShown (commit p))
        ⊎ ((is_due p ≡ false) × ((commit p).route.preferred_endpoint_id ≡ some id))
  unfolding commit prefer is_due
  commit-preferred full p h = elim (Bool-cases p.is_mounted) [
    | inl up ↦ elim (Bool-cases (has_endpoint id p.route.endpoints)) [
      | inl k ↦
          let same : commit p ≡ record p {
            selected_endpoint_id = some id;
            route = record p.route { preferred_endpoint_id = none };
          } =
            rw (up, h, full, k) in
          inl (rw same (record { selected = refl; listed = k; is_open = up; consumed = refl }))
      | inr k ↦
          let same : commit p ≡ record p {
            selected_endpoint_id = selected_id p.route.endpoints p.selected_endpoint_id;
          } =
            rw (up, h, full, k) in
          inr (rw (up, k), rw same h)
    ]
    | inr down ↦ let same : commit p ≡ p = rw down in inr (rw down, rw same h)
  ]

  -- The same inventory is open or not, with the same list.
  abbrev pub Alike : Page N J R S → Page N J R S → Type 0
  Alike p q = (p.is_mounted ≡ q.is_mounted) × (p.route.endpoints ≡ q.route.endpoints)

  prefer-Alike :
      (preferred selected : Option Text) (p : Page N J R S) → Alike (prefer preferred p selected) p
  unfolding prefer
  prefer-Alike none selected p = (refl, refl)
  prefer-Alike (some other) selected p =
      elim (Bool-cases (truthy other && has_endpoint other p.route.endpoints)) [
        | inl h ↦ (rw h, rw h)
        | inr h ↦ (rw h, rw h)
      ]

  pub commit-Alike : (p : Page N J R S) → Alike (commit p) p
  unfolding commit
  commit-Alike p = elim (Bool-cases p.is_mounted) [
    | inl h ↦
        let selected = selected_id p.route.endpoints p.selected_endpoint_id in
        let same : commit p ≡ prefer p.route.preferred_endpoint_id p selected = rw h in
        rw same (prefer-Alike p.route.preferred_endpoint_id selected p)
    | inr h ↦ let same : commit p ≡ p = rw h in rw same (refl, refl)
  ]
