-- ===== src/Datasets/Previews.antt =====
-- The preview that the page shows has come from the service.
use llm_evaluation.Prelude.{◌≡◌, ◌⊎◌, inl, inr, some, List, [], ◌∷◌, Bool-cases, Option-cases}
use llm_evaluation.Types.Datasets.{Dataset}
use llm_evaluation.Datasets.{is_dataset_active}
use llm_evaluation.Datasets.Page.{
  State, Event, DatasetPreview, selected_dataset, is_editing, can_save, ask_preview, is_ready,
  can_preview, open_edit, click, on_selected, step, run,
}

module _ {N R : Type 0} where
  -- The preview is an answer that has arrived.
  unfoldable pub Answered : DatasetPreview R → List (Event N R) → Type 0
  Answered p [] = ⊥
  Answered p (Event.previewed q ∷ es) = (p ≡ q) ⊎ Answered p es
  Answered p (e ∷ es) = Answered p es

  click-preview :
      (e : Event N R) (d : Dataset N) (s : State N R) (p : DatasetPreview R)
      → (click e d s).preview ≡ some p
      → s.preview ≡ some p
  unfolding click open_edit ask_preview
  click-preview Event.request_preview d s p h = elim (Bool-cases (can_preview s d)) [
    | inl k ↦ rw k at h
    | inr k ↦ rw k at h
  ]
  click-preview Event.start_edit d s p h = elim (Bool-cases (is_dataset_active d)) [
    | inl k ↦ rw k at h
    | inr k ↦ elim (Bool-cases (is_ready d)) [
      | inl r ↦ absurd (cc (rw (k, r) at h))
      | inr r ↦ absurd (cc (rw (k, r) at h))
    ]
  ]
  click-preview (Event.change_form form) d s p h = elim (Bool-cases (is_editing s d)) [
    | inl k ↦ rw k at h
    | inr k ↦ rw k at h
  ]
  click-preview Event.stop_edit d s p h = elim (Bool-cases (is_editing s d)) [
    | inl k ↦ rw k at h
    | inr k ↦ rw k at h
  ]
  click-preview Event.submit_edit d s p h = elim (Bool-cases (can_save s d)) [
    | inl k ↦ rw k at h
    | inr k ↦ rw k at h
  ]
  click-preview e d s p h = h

  step-Answered :
      (e : Event N R) (s : State N R) (p : DatasetPreview R)
      → (step e s).preview ≡ some p
      → (s.preview ≡ some p) ⊎ ((es : List (Event N R)) → Answered p (e ∷ es))
  unfolding step on_selected Answered
  step-Answered (Event.previewed q) s p h = inr (λ es. inl cc)
  step-Answered (Event.preview_failed text) s p h = absurd cc
  step-Answered (Event.listed datasets) s p h = inl h
  step-Answered (Event.saving id) s p h = inl h
  step-Answered (Event.select id) s p h = inl h
  step-Answered Event.preview_settled s p h = inl h
  step-Answered e s p h = elim (Option-cases (selected_dataset s)) [
    | inl k ↦ inl (rw k at h)
    | inr (d, k) ↦ inl (click-preview e d s p (rw k at h))
  ]

  Answered-cons :
      (e : Event N R) (es : List (Event N R)) (p : DatasetPreview R)
      → Answered p es
      → Answered p (e ∷ es)
  unfolding Answered
  Answered-cons (Event.previewed q) es p h = inr h
  Answered-cons e es p h = h

  pub run-Answered :
      (es : List (Event N R)) (s : State N R) (p : DatasetPreview R)
      → (run es s).preview ≡ some p
      → (s.preview ≡ some p) ⊎ Answered p es
  unfolding run Answered
  run-Answered [] s p h = inl h
  run-Answered (e ∷ es) s p h = elim (run-Answered es (step e s) p h) [
    | inl kept ↦ elim (step-Answered e s p kept) [ inl old ↦ inl old | inr new ↦ inr (new es) ]
    | inr later ↦ inr (Answered-cons e es p later)
  ]
