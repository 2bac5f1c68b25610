-- ===== src/Datasets/Edits.antt =====
-- Which update of a version the page can ask for.
use llm_evaluation.Prelude.{
  ◌≡◌, ◌≢◌, ◌⊎◌, inl, inr, refl, ap, not, ◌&&◌, truthy, includes, true, false, if◌then◌else◌,
  Option, none, some, List, [], ◌∷◌, Text, text_eq, text_eq_iff, opt_eq_iff, Bool-cases,
  Option-cases, arith,
}
use llm_evaluation.Types.Datasets.{Dataset}
use llm_evaluation.Datasets.{DatasetFormValues, is_dataset_active}
use llm_evaluation.Datasets.Page.{
  State, Event, DatasetPreview, initial_page, selected_dataset, preview_of, schema_fields,
  fields_collide, schema_mismatch, is_editing, can_save, ask_preview, is_ready, can_preview,
  open_edit, click, on_selected, step, run, sent_for, sent,
}
use llm_evaluation.Datasets.Previews.{Answered, run-Answered}

-- A field of the form is empty, or one of these.
abbrev pub IsKnown : List Text → Text → Type 0
IsKnown fields field = (field ≡ []) ⊎ (includes fields field ≡ true)

-- The preview is of another version, or has no fields, or those of the form are among its own.
abbrev pub IsFit : {R : Type 0} → Text → DatasetFormValues → DatasetPreview R → Type 0
IsFit id form p =
    (p.dataset_id ≢ id)
    ⊎ (p.fields ≡ [])
    ⊎ (IsKnown p.fields form.input_field × IsKnown p.fields form.reference_field)

falsy : (s : Text) → truthy s ≡ false → s ≡ []
falsy [] h = refl
falsy (c ∷ s) h = cc

known :
    (fields : List Text) (s : Text)
    → (truthy s && not (includes fields s)) ≡ false
    → IsKnown fields s
known fields s h = elim (Bool-cases (truthy s)) [
  | inl k ↦ inr (ground (arith, h, k))
  | inr k ↦ inl (falsy s k)
]

schema_mismatch-IsKnown :
    (fields : List Text) (form : DatasetFormValues)
    → schema_mismatch fields form ≡ false
    → (fields ≡ []) ⊎ (IsKnown fields form.input_field × IsKnown fields form.reference_field)
unfolding schema_mismatch
schema_mismatch-IsKnown [] form h = inl refl
schema_mismatch-IsKnown (f ∷ fields) form h = inr (
  known (f ∷ fields) form.input_field (ground (arith, h)),
  known (f ∷ fields) form.reference_field (ground (arith, h)),
)

-- The input field of the form is empty, or another one than the reference field.
abbrev pub IsApart : DatasetFormValues → Type 0
IsApart form = (form.input_field ≡ []) ⊎ (form.input_field ≢ form.reference_field)

fields_collide-IsApart : (form : DatasetFormValues) → fields_collide form ≡ false → IsApart form
unfolding fields_collide
fields_collide-IsApart form h = elim (Bool-cases (truthy form.input_field)) [
  | inl k ↦ inr (λ same.
      let e = (text_eq_iff form.input_field form.reference_field).1 same in
      absurd (ground (arith, h, k, e)))
  | inr k ↦ inl (falsy form.input_field k)
]

preview_of-IsFit :
    {R : Type 0} (id : Text) (form : DatasetFormValues) (p : DatasetPreview R)
    → schema_mismatch (schema_fields (preview_of id (some p))) form ≡ false
    → IsFit id form p
unfolding preview_of schema_fields
preview_of-IsFit id form p h = elim (Bool-cases (text_eq p.dataset_id id)) [
  | inl k ↦ inr (schema_mismatch-IsKnown p.fields form (rw (k, schema_fields) at h))
  | inr k ↦ inl (λ same. cc ((text_eq_iff p.dataset_id id).1 same))
]

module _ {N R : Type 0} where
  -- The version for which a click opens the form.
  unfoldable pub opened_by : Event N R → Option (Dataset N) → Option Text → Option Text
  opened_by Event.start_edit (some d) last = if is_dataset_active d then last else some d.id
  opened_by e d last = last

  -- The version for which the form was opened last.
  unfoldable pub last_opened : List (Event N R) → State N R → Option Text → Option Text
  last_opened [] s last = last
  last_opened (e ∷ es) s last = last_opened es (step e s) (opened_by e (selected_dataset s) last)

  -- The form is open for no version, or for the one for which it was opened last.
  abbrev IsOpenFor : State N R → Option Text → Type 0
  IsOpenFor s last = (s.editing_id ≡ none) ⊎ (s.editing_id ≡ last)

  click-IsOpenFor :
      (e : Event N R) (d : Dataset N) (s : State N R) (last : Option Text)
      → IsOpenFor s last
      → IsOpenFor (click e d s) (opened_by e (some d) last)
  unfolding click opened_by open_edit ask_preview
  click-IsOpenFor Event.request_preview d s last h = elim (Bool-cases (can_preview s d)) [
    | inl k ↦ rw k h
    | inr k ↦ rw k h
  ]
  click-IsOpenFor Event.start_edit d s last h = elim (Bool-cases (is_dataset_active d)) [
    | inl k ↦ rw k h
    | inr k ↦ elim (Bool-cases (is_ready d)) [
      | inl r ↦ rw (k, r) (inr refl)
      | inr r ↦ rw (k, r) (inr refl)
    ]
  ]
  click-IsOpenFor (Event.change_form form) d s last h = elim (Bool-cases (is_editing s d)) [
    | inl k ↦ rw k h
    | inr k ↦ rw k h
  ]
  click-IsOpenFor Event.stop_edit d s last h = elim (Bool-cases (is_editing s d)) [
    | inl k ↦ rw k (inl refl)
    | inr k ↦ rw k h
  ]
  click-IsOpenFor Event.submit_edit d s last h = elim (Bool-cases (can_save s d)) [
    | inl k ↦ rw k (inl refl)
    | inr k ↦ rw k h
  ]
  click-IsOpenFor e d s last h = h

  step-IsOpenFor :
      (e : Event N R) (s : State N R) (last : Option Text)
      → IsOpenFor s last
      → IsOpenFor (step e s) (opened_by e (selected_dataset s) last)
  unfolding step on_selected opened_by
  step-IsOpenFor (Event.listed datasets) s last h = h
  step-IsOpenFor (Event.saving id) s last h = h
  step-IsOpenFor (Event.select id) s last h = h
  step-IsOpenFor (Event.previewed p) s last h = h
  step-IsOpenFor (Event.preview_failed text) s last h = h
  step-IsOpenFor Event.preview_settled s last h = h
  step-IsOpenFor e s last h = elim (Option-cases (selected_dataset s)) [
    | inl k ↦ rw k h
    | inr (d, k) ↦ rw k (click-IsOpenFor e d s last h)
  ]

  run-IsOpenFor :
      (es : List (Event N R)) (s : State N R) (last : Option Text)
      → IsOpenFor s last
      → IsOpenFor (run es s) (last_opened es s last)
  unfolding run last_opened
  run-IsOpenFor [] s last h = h
  run-IsOpenFor (e ∷ es) s last h =
      run-IsOpenFor es (step e s) (opened_by e (selected_dataset s) last)
        (step-IsOpenFor e s last h)

  sent-Option :
      (s : State N R) (id : Text) (form : DatasetFormValues)
      → sent s ≡ some (id, form)
      → (d : Dataset N) × (selected_dataset s ≡ some d)
        × (can_save s d ≡ true)
        × (d.id ≡ id)
        × (s.edit_form ≡ form)
  unfolding sent sent_for
  sent-Option s id form h = elim (Option-cases (selected_dataset s)) [
    | inl k ↦ absurd (cc (rw (k, sent_for) at h))
    | inr (d, k) ↦ elim (Bool-cases (can_save s d)) [
      | inl c ↦
          let was : Text × DatasetFormValues = (d.id, s.edit_form) in
          let now : Text × DatasetFormValues = (id, form) in
          let made : some was ≡ some now = rw (k, sent_for, c) at h in
          let pair : was ≡ now = cc in (d, k, c, ap (λ e. e.0) pair, ap (λ e. e.1) pair)
      | inr c ↦ absurd (cc (rw (k, sent_for, c) at h))
    ]
  ]

  can_save-split :
      (s : State N R) (d : Dataset N)
      → can_save s d ≡ true
      → (s.editing_id ≡ some d.id)
        × (fields_collide s.edit_form ≡ false)
        × (schema_mismatch (schema_fields (preview_of d.id s.preview)) s.edit_form ≡ false)
  unfolding can_save is_editing
  can_save-split s d h =
      let editing = (opt_eq_iff s.editing_id (some d.id)).0 in ground (arith, h, editing)

  -- Whatever has happened on the page, an update that can be sent is for the version for which the
  -- form was opened last, and its input field is empty or another one than its reference field. If
  -- there is a preview, it is an answer that has arrived, and it is of another version, or has no
  -- fields, or each of the two fields of the form is empty or among them.
  pub run-sent :
      (es : List (Event N R)) (id : Text) (form : DatasetFormValues)
      → sent (run es initial_page) ≡ some (id, form)
      → (last_opened es initial_page none ≡ some id)
        × IsApart form
        × (((run es initial_page).preview ≡ none)
            ⊎ ((p : DatasetPreview R) × ((run es initial_page).preview ≡ some p)
                × Answered p es
                × IsFit id form p))
  run-sent es id form h =
      let s = run es initial_page in
      let (d, chosen, saves, same_id, same_form) = sent-Option s id form h in
      let (editing, apart, fit) = can_save-split s d saves in
      (
        elim (run-IsOpenFor es initial_page none (inl refl)) [ inl closed ↦ cc | inr opened ↦ cc ],
        rw (← same_form) (fields_collide-IsApart s.edit_form apart),
        elim (Option-cases s.preview) [
          | inl k ↦ inl k
          | inr (p, k) ↦
              let came : Answered p es = elim (run-Answered es initial_page p k) [
                | inl early ↦ absurd cc
                | inr came ↦ came
              ] in
              let own = preview_of-IsFit d.id s.edit_form p (rw k at fit) in
              inr (p, k, came, rw (same_id, same_form) at own)
        ],
      )
