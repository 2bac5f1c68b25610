-- ===== src/RunDetails/Attempts.antt =====
-- The list of attempts as pages are added to it.
use llm_evaluation.Prelude.{
  ◌≡◌, ◌≢◌, inl, inr, refl, ap, ◌∙◌, Bool, true, not, ◌||◌, List, [], ◌∷◌, ◌++◌, keep, any, All,
  All-append, Text, text_eq, text_eq_iff, arith, Bool-cases,
}
use llm_evaluation.Prelude.Sorting.{Ordered}
use llm_evaluation.Types.Runs.{SampleAttempt}
use llm_evaluation.RunDetails.{add_attempts}

module _ {N J : Type 0} where
  -- No two attempts have one identifier.
  abbrev pub Apart : SampleAttempt N J → SampleAttempt N J → Type 0
  Apart a b = a.id ≢ b.id

  abbrev pub listed : Text → List (SampleAttempt N J) → Bool
  listed id attempts = any (λ existing. text_eq existing.id id) attempts

  All-keep :
      (a : SampleAttempt N J) (p : SampleAttempt N J → Bool) (next : List (SampleAttempt N J))
      → All (Apart a) next
      → All (Apart a) (keep p next)
  All-keep a p [] h = tt
  All-keep a p (b ∷ next) (here, later) = elim (Bool-cases (p b)) [
    | inl e ↦ rw e (here, All-keep a p next later)
    | inr e ↦ rw e (All-keep a p next later)
  ]

  keep-Ordered :
      (p : SampleAttempt N J → Bool) (next : List (SampleAttempt N J))
      → Ordered Apart next
      → Ordered Apart (keep p next)
  keep-Ordered p [] h = tt
  keep-Ordered p (b ∷ next) (here, later) = elim (Bool-cases (p b)) [
    | inl e ↦ rw e (All-keep b p next here, keep-Ordered p next later)
    | inr e ↦ rw e (keep-Ordered p next later)
  ]

  append-Ordered :
      (xs ys : List (SampleAttempt N J))
      → Ordered Apart xs
      → Ordered Apart ys
      → All (λ x. All (Apart x) ys) xs
      → Ordered Apart (xs ++ ys)
  append-Ordered [] ys h k apart = k
  append-Ordered (x ∷ xs) ys (here, later) k (first, rest) =
      (All-append (Apart x) xs ys here first, append-Ordered xs ys later k rest)

  -- What is kept of the next page is apart from each attempt of a part of the list.
  keep-listed :
      (current part next : List (SampleAttempt N J))
      → ((id : Text) → listed id part ≡ true → listed id current ≡ true)
      → All (λ x. All (Apart x) (keep (λ item. not (listed item.id current)) next)) part
  keep-listed current [] next sub = tt
  keep-listed current (x ∷ part) next sub =
      (one next, keep-listed current part next (λ id h. sub id (ground arith)))
    where
      one :
          (ys : List (SampleAttempt N J))
          → All (Apart x) (keep (λ item. not (listed item.id current)) ys)
      one [] = tt
      one (y ∷ ys) = elim (Bool-cases (listed y.id current)) [
        | inl e ↦ rw e (one ys)
        | inr e ↦
            rw e (λ same. cc (sub y.id (ground (arith, (text_eq_iff x.id y.id).1 same)), e), one ys)
      ]

  listed-append :
      (id : Text) (xs ys : List (SampleAttempt N J))
      → listed id (xs ++ ys) ≡ (listed id xs || listed id ys)
  listed-append id [] ys = refl
  listed-append id (x ∷ xs) ys = ground (arith, listed-append id xs ys)

  listed-kept :
      (id : Text) (current next : List (SampleAttempt N J))
      → (listed id current || listed id (keep (λ item. not (listed item.id current)) next))
        ≡ (listed id current || listed id next)
  listed-kept id current [] = refl
  listed-kept id current (y ∷ next) = elim (Bool-cases (text_eq y.id id)) [
    | inl e ↦
        let same = ap (λ i. listed i current) ((text_eq_iff y.id id).0 e) in
        ground (arith, same, listed-kept id current next)
    | inr e ↦ ground (arith, listed-kept id current next)
  ]

  -- Adding a page without repetitions to a list without repetitions gives none, and the list then has
  -- exactly the attempts of both.
  pub add_attempts-Ordered :
      (next current : List (SampleAttempt N J))
      → Ordered Apart next
      → Ordered Apart current
      → Ordered Apart (add_attempts next current)
        × ((id : Text)
            → listed id (add_attempts next current) ≡ (listed id current || listed id next))
  unfolding add_attempts
  add_attempts-Ordered next current h k =
      let kept = keep (λ item. not (listed item.id current)) next in
      (
        append-Ordered current kept k (keep-Ordered (λ item. not (listed item.id current)) next h)
            (keep-listed current current next (λ id present. present)),
        λ id. listed-append id current kept ∙ listed-kept id current next,
      )
