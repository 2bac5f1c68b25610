-- ===== src/Datasets/Values.antt =====
-- MultiValueInput of components/datasets/DatasetMetadataFields.tsx: a list of values and the draft of
-- another one. `toLocaleLowerCase` is a parameter, and so is how a draft is normalized.
use llm_evaluation.Prelude.{
  ◌≡◌, inl, inr, refl, Bool, true, false, not, ◌||◌, ◌==◌, if◌then◌else◌, List, [], ◌∷◌, ◌++◌, keep,
  any, truthy, Text, text_eq, text_eq_iff, ◌≢◌, sym, All, is_space, trim, Bool-cases, arith,
}
use llm_evaluation.Prelude.Sorting.{Ordered}

pub record ValueInput : Type 0 where
  pub values : List Text
  pub draft : Text

pub data ValueEvent : Type 0 where
  typed : Text → ValueEvent
  entered blurred backspace : ValueEvent
  removed : Text → ValueEvent

-- `values.slice(0, -1)`.
unfoldable pub but_last : List Text → List Text
but_last [] = []
but_last (v ∷ []) = []
but_last (v ∷ w ∷ vs) = v ∷ but_last (w ∷ vs)

-- `replace(/[\s-]+/g, "_")`: `inside` a run of blanks and dashes, which has its underscore.
unfoldable pub underscored : Bool → Text → Text
underscored inside [] = []
underscored inside (c ∷ s) =
    let within = underscored true s in
    let behind = underscored false s in
    if is_space c || c == 45 then (if inside then within else 95 ∷ within) else c ∷ behind

module _ (to_lower_case : Text → Text) where
  unfoldable pub normalize_capability : Text → Text
  normalize_capability value = underscored false (to_lower_case (trim value))

  unfoldable pub has_value : List Text → Text → Bool
  has_value values value = any (λ item. text_eq (to_lower_case item) (to_lower_case value)) values

  module _ (normalize : Text → Text) where
    unfoldable pub add_draft : ValueInput → ValueInput
    add_draft s =
        let value = normalize s.draft in
        if not (truthy value) || has_value s.values value
        then record s { draft = [] }
        else record { values = s.values ++ value ∷ []; draft = [] }

    unfoldable pub step : ValueEvent → ValueInput → ValueInput
    step (typed text) s = record s { draft = text }
    step entered s = add_draft s
    step blurred s = add_draft s
    step backspace s = if not (truthy s.draft) then record s { values = but_last s.values } else s
    step (removed value) s = record s { values = keep (λ item. not (text_eq item value)) s.values }

    unfoldable pub run : List ValueEvent → ValueInput → ValueInput
    run [] s = s
    run (e ∷ es) s = run es (step e s)

  -- No value is empty and no two are one but for their case.
  abbrev pub IsClean : List Text → Type 0
  IsClean values =
      All (λ v. truthy v ≡ true) values × Ordered (λ v w. to_lower_case v ≢ to_lower_case w) values

  -- The same by the test of the code.
  abbrev IsTested : List Text → Type 0
  IsTested [] = Unit {0}
  IsTested (v ∷ vs) = (truthy v ≡ true) × (has_value vs v ≡ false) × IsTested vs

  has_value-none :
      (vs : List Text) (v : Text)
      → has_value vs v ≡ false
      → All (λ w. to_lower_case v ≢ to_lower_case w) vs
  unfolding has_value
  has_value-none [] v h = tt
  has_value-none (w ∷ vs) v h =
      let same = text_eq_iff (to_lower_case w) (to_lower_case v) in
      (λ e. ground (arith, h, same, sym e), has_value-none vs v (ground (arith, h)))

  has_value-apart :
      (vs : List Text) (v : Text)
      → All (λ w. to_lower_case v ≢ to_lower_case w) vs
      → has_value vs v ≡ false
  unfolding has_value
  has_value-apart [] v h = refl
  has_value-apart (w ∷ vs) v (here, later) =
      let same = text_eq_iff (to_lower_case w) (to_lower_case v) in
      elim (Bool-cases (text_eq (to_lower_case w) (to_lower_case v))) [
        | inl e ↦ absurd (here (sym (same.0 e)))
        | inr e ↦ ground (arith, e, has_value-apart vs v later)
      ]

  IsClean-IsTested : (vs : List Text) → IsTested vs → IsClean vs
  IsClean-IsTested [] h = (tt, tt)
  IsClean-IsTested (v ∷ vs) (full, apart, later) =
      let rest = IsClean-IsTested vs later in ((full, rest.0), (has_value-none vs v apart, rest.1))

  IsTested-IsClean :
      (vs : List Text)
      → All (λ v. truthy v ≡ true) vs
      → Ordered (λ v w. to_lower_case v ≢ to_lower_case w) vs
      → IsTested vs
  IsTested-IsClean [] h k = tt
  IsTested-IsClean (v ∷ vs) (full, h) (apart, k) =
      (full, has_value-apart vs v apart, IsTested-IsClean vs h k)

  has_value-keep :
      (p : Text → Bool) (vs : List Text) (v : Text)
      → has_value vs v ≡ false
      → has_value (keep p vs) v ≡ false
  unfolding has_value
  has_value-keep p [] v h = refl
  has_value-keep p (w ∷ vs) v h = ground (arith, has_value-keep p vs v)

  keep-IsTested : (p : Text → Bool) (vs : List Text) → IsTested vs → IsTested (keep p vs)
  keep-IsTested p [] h = tt
  keep-IsTested p (v ∷ vs) (full, apart, later) = elim (Bool-cases (p v)) [
    | inl k ↦ rw k (full, has_value-keep p vs v apart, keep-IsTested p vs later)
    | inr k ↦ rw k (keep-IsTested p vs later)
  ]

  has_value-but_last :
      (vs : List Text) (v : Text) → has_value vs v ≡ false → has_value (but_last vs) v ≡ false
  unfolding has_value but_last
  has_value-but_last [] v h = refl
  has_value-but_last (w ∷ []) v h = refl
  has_value-but_last (w ∷ u ∷ vs) v h = ground (arith, has_value-but_last (u ∷ vs) v)

  but_last-IsTested : (vs : List Text) → IsTested vs → IsTested (but_last vs)
  unfolding but_last
  but_last-IsTested [] h = tt
  but_last-IsTested (v ∷ []) h = tt
  but_last-IsTested (v ∷ w ∷ vs) (full, apart, later) =
      (full, has_value-but_last (w ∷ vs) v apart, but_last-IsTested (w ∷ vs) later)

  has_value-append :
      (vs : List Text) (value v : Text)
      → has_value vs v ≡ false
      → text_eq (to_lower_case v) (to_lower_case value) ≡ false
      → has_value (vs ++ value ∷ []) v ≡ false
  unfolding has_value
  has_value-append [] value v h k = ground (
    arith,
    text_eq_iff (to_lower_case v) (to_lower_case value),
    text_eq_iff (to_lower_case value) (to_lower_case v),
  )
  has_value-append (w ∷ vs) value v h k = ground (arith, has_value-append vs value v)

  append-IsTested :
      (vs : List Text) (value : Text)
      → truthy value ≡ true
      → has_value vs value ≡ false
      → IsTested vs
      → IsTested (vs ++ value ∷ [])
  unfolding has_value
  append-IsTested [] value full none_yet h = (full, refl, tt)
  append-IsTested (v ∷ vs) value full none_yet (here, apart, later) = (
    here,
    has_value-append vs value v apart (ground arith),
    append-IsTested vs value full (ground arith) later,
  )

  module _ (normalize : Text → Text) where
    add_draft-IsTested :
        (s : ValueInput) → IsTested s.values → IsTested (add_draft normalize s).values
    unfolding add_draft
    add_draft-IsTested s h =
        let value = normalize s.draft in
        elim (Bool-cases (not (truthy value) || has_value s.values value)) [
          | inl k ↦ rw k h
          | inr k ↦ rw k (append-IsTested s.values value (ground arith) (ground arith) h)
        ]

    step-IsTested :
        (e : ValueEvent) (s : ValueInput) → IsTested s.values → IsTested (step normalize e s).values
    unfolding step
    step-IsTested (typed text) s h = h
    step-IsTested entered s h = add_draft-IsTested s h
    step-IsTested blurred s h = add_draft-IsTested s h
    step-IsTested backspace s h = elim (Bool-cases (not (truthy s.draft))) [
      | inl k ↦ rw k (but_last-IsTested s.values h)
      | inr k ↦ rw k h
    ]
    step-IsTested (removed value) s h = keep-IsTested (λ item. not (text_eq item value)) s.values h

    run-IsTested :
        (es : List ValueEvent) (s : ValueInput)
        → IsTested s.values
        → IsTested (run normalize es s).values
    unfolding run
    run-IsTested [] s h = h
    run-IsTested (e ∷ es) s h = run-IsTested es (step normalize e s) (step-IsTested e s h)

    -- However the input is used, no value becomes empty and no two values differ by their case alone,
    -- if it starts with such values.
    pub run-IsClean :
        (es : List ValueEvent) (s : ValueInput)
        → IsClean s.values
        → IsClean (run normalize es s).values
    run-IsClean es s (full, apart) =
        IsClean-IsTested (run normalize es s).values
          (run-IsTested es s (IsTested-IsClean s.values full apart))
