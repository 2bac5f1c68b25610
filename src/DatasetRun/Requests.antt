-- ===== src/DatasetRun/Requests.antt =====
-- Which fields the launcher offers, however choices, lists and answers interleave.
use llm_evaluation.Prelude.{
  ℕ, suc, ◌≡◌, ◌⊎◌, inl, inr, refl, sym, ap, ◌∙◌, true, false, ◌&&◌, ◌==◌, ==_iff, List, [], ◌∷◌,
  truthy, Text, keep, Bool-cases, and-split,
}
use llm_evaluation.Prelude.Distinct.{distinct}
use llm_evaluation.Catalog.{Locale}
use llm_evaluation.DatasetRun.Schema.{choose_fields}
use llm_evaluation.DatasetRun.Launch.{
  Deps, Launch, Event, answered, initial_launch, makes_request, bool_eq, declared_eq, deps_eq,
  deps_of, declared_of, run_effect, commit_launch, is_current, chosen, take_fields, handle_launch,
  step_launch, run_launch,
}
use llm_evaluation.DatasetRun.Launch as Launch
use llm_evaluation.DatasetRun.Asked.{HasAsked, deps_eq_refl, deps_eq-HasAsked}

-- The answer with this number and these fields is among the events.
unfoldable pub Arrived : {N P : Type 0} → ℕ → List Text → List (Event N P) → Type 0
Arrived n preview [] = ⊥
Arrived n preview (answered m fields ∷ es) = ((n ≡ m) × (preview ≡ fields)) ⊎ Arrived n preview es
Arrived n preview (e ∷ es) = Arrived n preview es

initial_launch-deps :
    (N P : Type 0) (locale : Locale)
    → deps_eq (deps_of (initial_launch {N = N} {P = P} locale)) (Launch.no_deps locale) ≡ true
unfolding deps_of
initial_launch-deps N P locale = deps_eq_refl (Launch.no_deps locale)

module _ {N P : Type 0} where
  Arrived-cons :
      (e : Event N P) (es : List (Event N P)) (n : ℕ) (preview : List Text)
      → Arrived n preview es
      → Arrived n preview (e ∷ es)
  unfolding Arrived
  Arrived-cons (answered m fields) es n preview h = inr h
  Arrived-cons e es n preview h = h

  -- The effect has run for what it depends on.
  commit_launch-deps :
      (s : Launch N P) → deps_eq (deps_of (commit_launch s)) (commit_launch s).deps ≡ true
  unfolding commit_launch run_effect deps_of
  commit_launch-deps s = elim (Bool-cases (deps_eq (deps_of s) s.deps)) [
    | inl h ↦ let same : commit_launch s ≡ s = rw h in rw same h
    | inr h ↦
        let same : commit_launch s ≡ run_effect (deps_of s) s = rw h in
        rw same (deps_eq_refl (deps_of s))
  ]

  -- The fields and the request are the same.
  abbrev Kept : Launch N P → Launch N P → Type 0
  Kept new s = (new.fields ≡ s.fields) × (new.generation ≡ s.generation)

  commit_launch-fields :
      (s : Launch N P) → ((commit_launch s).fields ≡ []) ⊎ Kept (commit_launch s) s
  unfolding commit_launch run_effect
  commit_launch-fields s = elim (Bool-cases (deps_eq (deps_of s) s.deps)) [
    | inl h ↦
        let same : commit_launch s ≡ s = rw h in
        inr (ap (λ l. l.fields) same, ap (λ l. l.generation) same)
    | inr h ↦
        let same : commit_launch s ≡ run_effect (deps_of s) s = rw h in
        inl (ap (λ l. l.fields) same)
  ]

  -- The fields are those of an answer to the request that is current.
  abbrev pub IsOffer : Launch N P → List (Event N P) → Type 0
  IsOffer s es =
      (preview : List Text) × Arrived s.generation preview es
      × (s.fields ≡ distinct (keep truthy preview))

  module _ (schema_empty reference_required : Locale → Text) where
    handle_launch-fields :
        (e : Event N P) (s : Launch N P)
        → Kept (handle_launch schema_empty reference_required e s) s
          ⊎ ((es : List (Event N P))
              → IsOffer (handle_launch schema_empty reference_required e s) (e ∷ es))
    unfolding handle_launch take_fields chosen choose_fields Arrived
    handle_launch-fields (answered n preview) s =
        elim (Bool-cases (n == s.generation && makes_request s.deps)) [
          | inl h ↦
              let number =
                (==_iff n s.generation).0
                  ((and-split (n == s.generation) (makes_request s.deps) h).0) in
              let same : handle_launch schema_empty reference_required (answered n preview) s
                  ≡ take_fields (chosen schema_empty reference_required preview s.deps) s =
                rw h in
              inr (λ es. rw same (preview, inl (sym number, refl), refl))
          | inr h ↦
              let same : handle_launch schema_empty reference_required (answered n preview) s ≡ s =
                rw h in
              inl (rw same (refl, refl))
        ]
    handle_launch-fields (Event.failed n message) s =
        elim (Bool-cases (n == s.generation && makes_request s.deps)) [
          | inl h ↦ inl (rw h (refl, refl))
          | inr h ↦ inl (rw h (refl, refl))
        ]
    handle_launch-fields e s = inl (refl, refl)

    step_launch-fields :
        (e : Event N P) (s : Launch N P)
        → ((step_launch schema_empty reference_required e s).fields ≡ [])
          ⊎ Kept (step_launch schema_empty reference_required e s) s
          ⊎ ((es : List (Event N P))
              → IsOffer (step_launch schema_empty reference_required e s) (e ∷ es))
    unfolding step_launch
    step_launch-fields e s =
        let next = handle_launch schema_empty reference_required e s in
        elim (commit_launch-fields next) [
          | inl none_left ↦ inl none_left
          | inr (fields, number) ↦ elim (handle_launch-fields e s) [
            | inl (f, n) ↦ inr (inl (fields ∙ f, number ∙ n))
            | inr offer ↦ inr (
                inr (λ es.
                  let (preview, came, k) = offer es in (preview, rw number came, fields ∙ k)))
          ]
        ]

    run_launch-fields :
        (es : List (Event N P)) (s : Launch N P)
        → ((run_launch schema_empty reference_required es s).fields ≡ [])
          ⊎ Kept (run_launch schema_empty reference_required es s) s
          ⊎ IsOffer (run_launch schema_empty reference_required es s) es
    unfolding run_launch
    run_launch-fields [] s = inr (inl (refl, refl))
    run_launch-fields (e ∷ es) s =
        elim (run_launch-fields es (step_launch schema_empty reference_required e s)) [
          | inl none_left ↦ inl none_left
          | inr (inl (fields, number)) ↦ elim (step_launch-fields e s) [
            | inl none_left ↦ inl (fields ∙ none_left)
            | inr (inl (f, n)) ↦ inr (inl (fields ∙ f, number ∙ n))
            | inr (inr offer) ↦
                let (preview, came, k) = offer es in inr (inr (preview, rw number came, fields ∙ k))
          ]
          | inr (inr (preview, came, k)) ↦ inr (
              inr (
                preview,
                Arrived-cons e es
                    (run_launch schema_empty reference_required es
                      (step_launch schema_empty reference_required e s)).generation
                    preview came,
                k,
              ))
        ]

    run_launch-deps :
        (es : List (Event N P)) (s : Launch N P)
        → deps_eq (deps_of s) s.deps ≡ true
        → deps_eq
            (deps_of (run_launch schema_empty reference_required es s))
            (run_launch schema_empty reference_required es s).deps
          ≡ true
    unfolding run_launch step_launch
    run_launch-deps [] s h = h
    run_launch-deps (e ∷ es) s h =
        run_launch-deps es (step_launch schema_empty reference_required e s)
          (commit_launch-deps (handle_launch schema_empty reference_required e s))

    handle_launch-generation :
        (e : Event N P) (s : Launch N P)
        → ((handle_launch schema_empty reference_required e s).generation ≡ s.generation)
          × ((handle_launch schema_empty reference_required e s).deps ≡ s.deps)
    unfolding handle_launch take_fields
    handle_launch-generation (answered n preview) s =
        elim (Bool-cases (n == s.generation && makes_request s.deps)) [
          | inl h ↦ rw h (refl, refl)
          | inr h ↦ rw h (refl, refl)
        ]
    handle_launch-generation (Event.failed n message) s =
        elim (Bool-cases (n == s.generation && makes_request s.deps)) [
          | inl h ↦ rw h (refl, refl)
          | inr h ↦ rw h (refl, refl)
        ]
    handle_launch-generation e s = (refl, refl)

    -- A new request has the next number; without one, what was asked for stays.
    step_launch-generation :
        (e : Event N P) (s : Launch N P)
        → let t = step_launch schema_empty reference_required e s in
          ((t.generation ≡ s.generation) × (t.deps ≡ s.deps)) ⊎ (t.generation ≡ suc s.generation)
    unfolding step_launch commit_launch run_effect
    step_launch-generation e s =
        let next = handle_launch schema_empty reference_required e s in
        let (number, deps) = handle_launch-generation e s in
        elim (Bool-cases (deps_eq (deps_of next) next.deps)) [
          | inl h ↦ rw h (inl (number, deps))
          | inr h ↦ rw h (inr (ap suc number))
        ]

    -- However choices of a dataset, lists, retries, answers and failures interleave, the launcher has
    -- asked for just the dataset, the fields it declares, the retry and the locale that it now has, and
    -- the fields that it offers are none or those of an answer with the number of this last request,
    -- each once and none empty. Whatever comes next, the request takes the next number or is still for
    -- the same. An answer with another number than that of the last request, or its failure, changes
    -- nothing.
    pub run_launch-IsOffer :
        (es : List (Event N P)) (locale : Locale) (n : ℕ) (preview : List Text) (message : Text)
        → (n == (run_launch schema_empty reference_required es (initial_launch locale)).generation)
          ≡ false
        → let s = run_launch schema_empty reference_required es (initial_launch locale) in
          HasAsked s
          × ((s.fields ≡ []) ⊎ IsOffer s es)
          × ((e : Event N P)
              → let t = step_launch schema_empty reference_required e s in
                ((t.generation ≡ s.generation) × (t.deps ≡ s.deps))
                ⊎ (t.generation ≡ suc s.generation))
          × (step_launch schema_empty reference_required (answered n preview) s ≡ s)
          × (step_launch schema_empty reference_required (Event.failed n message) s ≡ s)
    unfolding step_launch handle_launch commit_launch
    run_launch-IsOffer es locale n preview message old =
        let s : Launch N P =
          run_launch schema_empty reference_required es (initial_launch locale) in
        let synced = run_launch-deps es (initial_launch locale) (initial_launch-deps N P locale) in
        (
          deps_eq-HasAsked s synced,
          elim (run_launch-fields es (initial_launch locale)) [
            | inl none_left ↦ inl none_left
            | inr (inl (fields, number)) ↦ inl fields
            | inr (inr offer) ↦ inr offer
          ],
          λ e. step_launch-generation e s,
          rw (old, synced),
          rw (old, synced),
        )
