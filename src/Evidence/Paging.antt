-- ===== src/Evidence/Paging.antt =====
-- EvidenceBrowser: the samples that are shown, a hundred more with each click.
use llm_evaluation.Prelude.{
  ℕ, zero, suc, ◌+◌, ◌*◌, ◌≡◌, ◌≤◌, inl, inr, refl, ap, sym, ◌∙◌, Bool, false, ltb, if◌then◌else◌,
  List, [], ◌∷◌, ◌++◌, length, length-take, take, drop, Text, Bool-cases, arith,
}
use mathlib.Core.List.{append-nil}
use llm_evaluation.Types.Runs.{SampleAttempt}
use llm_evaluation.Evidence.Filters.{EvidenceFilters, all_samples, Numbers, filtered}

pub record Browser (N J : Type 0) : Type 0 where
  pub attempts : List (SampleAttempt N J)
  pub filters : EvidenceFilters
  pub visible_count : ℕ

pub data BrowserEvent (N J : Type 0) : Type 0 where
  loaded : List (SampleAttempt N J) → BrowserEvent N J
  change_filters : EvidenceFilters → BrowserEvent N J
  show_more : BrowserEvent N J

abbrev pub initial_browser : {N J : Type 0} → Browser N J
initial_browser = record { attempts = []; filters = all_samples; visible_count = 100 }

take-whole : {A : Type 0} (n : ℕ) (xs : List A) → length xs ≤ n → take n xs ≡ xs
take-whole zero [] h = refl
take-whole zero (x ∷ xs) h = absurd (omega (arith, h))
take-whole (suc n) [] h = refl
take-whole (suc n) (x ∷ xs) h = ap (λ t. x ∷ t) (take-whole n xs (omega (arith, h)))

take-nil : {A : Type 0} (n : ℕ) → take {A = A} n [] ≡ []
take-nil zero = refl
take-nil (suc n) = refl

take-add : {A : Type 0} (n m : ℕ) (xs : List A) → take (n + m) xs ≡ take n xs ++ take m (drop n xs)
take-add zero m xs = let e : 0 + m ≡ m = omega arith in rw e
take-add (suc n) m [] = let e : suc n + m ≡ suc (n + m) = omega arith in rw (e, take-nil m)
take-add (suc n) m (x ∷ xs) =
    let e : suc n + m ≡ suc (n + m) = omega arith in rw (e, take-add n m xs)

module _ {N J : Type 0} (numbers : Numbers N) (modality_of : J → Text)
    (to_lower_case : Text → Text) where
  unfoldable pub matching : Browser N J → List (SampleAttempt N J)
  matching s = filtered numbers modality_of to_lower_case s.filters s.attempts

  unfoldable pub visible : Browser N J → List (SampleAttempt N J)
  visible s = take s.visible_count (matching s)

  -- The button is there.
  unfoldable pub has_more : Browser N J → Bool
  has_more s = ltb (length (visible s)) (length (matching s))

  unfoldable pub browse : BrowserEvent N J → Browser N J → Browser N J
  browse (loaded attempts) s = record s { attempts = attempts }
  browse (change_filters filters) s = record s { filters = filters; visible_count = 100 }
  browse show_more s = if has_more s then record s { visible_count = s.visible_count + 100 } else s

  unfoldable pub press : ℕ → Browser N J → Browser N J
  press zero s = s
  press (suc n) s = press n (browse show_more s)

  shown_all : (s : Browser N J) → has_more s ≡ false → length (matching s) ≤ s.visible_count
  unfolding has_more visible
  shown_all s h = let cut = length-take s.visible_count (matching s) in ground (arith, h, cut)

  press-all :
      (n : ℕ) (s : Browser N J)
      → length (matching s) ≤ s.visible_count + n * 100
      → visible (press n s) ≡ matching s
  unfolding press browse visible matching
  press-all zero s h = take-whole s.visible_count (matching s) (omega (arith, h))
  press-all (suc n) s h = elim (Bool-cases (has_more s)) [
    | inl k ↦
        let next : Browser N J = record s { visible_count = s.visible_count + 100 } in
        let same : browse show_more s ≡ next = rw k in
        ap (λ b. visible (press n b)) same ∙ press-all n next (omega (arith, h))
    | inr k ↦
        let same : browse show_more s ≡ s = rw k in
        let all_shown = shown_all s k in
        ap (λ b. visible (press n b)) same ∙ press-all n s (omega (arith, all_shown))
  ]

  browse-more :
      (s : Browser N J)
      → (more : List (SampleAttempt N J)) × (visible (browse show_more s) ≡ visible s ++ more)
        × (length more ≤ 100)
  unfolding browse visible matching
  browse-more s = elim (Bool-cases (has_more s)) [
    | inl k ↦
        let next : Browser N J = record s { visible_count = s.visible_count + 100 } in
        let same : browse show_more s ≡ next = rw k in
        let rest = drop s.visible_count (matching s) in
        let cut = length-take 100 rest in
        (take 100 rest, rw same (take-add s.visible_count 100 (matching s)), ground (arith, cut))
    | inr k ↦
        let same : browse show_more s ≡ s = rw k in
        ([], rw same (sym (append-nil (visible s))), omega arith)
  ]

  -- Pressing the button adds at most a hundred samples behind those that are shown. Pressed so often
  -- that a hundred for each time and those of the start reach the number of samples that pass the
  -- filters, or less often if the button is gone before, all of these are shown.
  pub press-visible :
      (n : ℕ) (s : Browser N J)
      → length (matching s) ≤ s.visible_count + n * 100
      → (visible (press n s) ≡ matching s)
        × (more : List (SampleAttempt N J)) × (visible (browse show_more s) ≡ visible s ++ more)
        × (length more ≤ 100)
  press-visible n s h =
      let (more, added, few) = browse-more s in (press-all n s h, more, added, few)
