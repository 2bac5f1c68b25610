-- ===== src/Prelude/Grouping.antt =====
-- The grouping of a list into an insertion-ordered `Map` from keys to lists, by a loop that gets the
-- list of a key and pushes an item onto it, or sets a new list.
use mathlib.Core.Path.{◌≡◌, refl, sym}
use mathlib.Core.Bool.{Bool, true, false}
use mathlib.Core.Logic.{◌≢◌, ◌↔◌, inl, inr}
use mathlib.Core.Option.{Option, none, some}
use mathlib.Core.List.{List, [], ◌∷◌, ◌++◌, append-nil, append_assoc}
use native.Mathlib.Omega.{arith}
use llm_evaluation.Prelude.Tests.{if◌then◌else◌, Bool-cases}
use llm_evaluation.Prelude.Lists.{All, keep}
use llm_evaluation.Prelude.Sorting.{Ordered}

abbrev pub Groups {ℓ κ} : Type ℓ → Type κ → Type (ℓ ⊔ κ)
Groups K A = List (K × List A)

abbrev pub key_is {ℓ} : {K : Type ℓ} → (K → K → Bool) → K → Option K → Bool
key_is eq k none = false
key_is eq k (some j) = eq j k

module _ {ℓ κ} {K : Type ℓ} {A : Type κ} (eq : K → K → Bool) where
  unfoldable pub push_group : K → A → Groups K A → Groups K A
  push_group k a [] = (k, a ∷ []) ∷ []
  push_group k a ((j, rows) ∷ gs) =
      if eq j k then (j, rows ++ a ∷ []) ∷ gs else (j, rows) ∷ push_group k a gs

  -- `groups.get(k) ?? []`.
  unfoldable pub rows_of : K → Groups K A → List A
  rows_of k [] = []
  rows_of k ((j, rows) ∷ gs) = if eq j k then rows else rows_of k gs

  -- An item without a key is passed over.
  unfoldable pub place : Option K → A → Groups K A → Groups K A
  place none a gs = gs
  place (some k) a gs = push_group k a gs

  module _ (key : A → Option K) where
    unfoldable pub group_from : Groups K A → List A → Groups K A
    group_from gs [] = gs
    group_from gs (a ∷ rest) = group_from (place (key a) a gs) rest

-- What the groups hold, for a key test that decides equality.
module _ {ℓ κ} {K : Type ℓ} {A : Type κ} (eq : K → K → Bool)
    (eq_iff : (j k : K) → (eq j k ≡ true) ↔ (j ≡ k)) where
  rows_of-push_group :
      (k j : K) (a : A) (gs : Groups K A)
      → rows_of eq k (push_group eq j a gs)
        ≡ (if eq j k then rows_of eq k gs ++ a ∷ [] else rows_of eq k gs)
  unfolding rows_of push_group
  rows_of-push_group k j a [] = ground arith
  rows_of-push_group k j a ((i, rows) ∷ gs) =
      ground (arith, eq_iff j k, eq_iff i k, eq_iff i j, rows_of-push_group k j a gs)

  rows_of-place :
      (k : K) (o : Option K) (a : A) (gs : Groups K A)
      → rows_of eq k (place eq o a gs)
        ≡ (if key_is eq k o then rows_of eq k gs ++ a ∷ [] else rows_of eq k gs)
  unfolding place
  rows_of-place k none a gs = refl
  rows_of-place k (some j) a gs = rows_of-push_group k j a gs

  module _ (key : A → Option K) where
    -- The list of a key holds the items with this key, in their order.
    pub rows_of-group_from :
        (k : K) (gs : Groups K A) (xs : List A)
        → rows_of eq k (group_from eq key gs xs)
          ≡ rows_of eq k gs ++ keep (λ a. key_is eq k (key a)) xs
    unfolding group_from
    rows_of-group_from k gs [] = sym (append-nil _)
    rows_of-group_from k gs (a ∷ rest) =
        rw (rows_of-group_from k (place eq (key a) a gs) rest, rows_of-place k (key a) a gs)
          (elim (Bool-cases (key_is eq k (key a))) [
            | inl e ↦ rw e (append_assoc (rows_of eq k gs) (a ∷ []) _)
            | inr e ↦ rw e
          ])

  -- No key has two groups, and no group is empty.
  abbrev pub IsGrouped : Groups K A → Type (ℓ ⊔ κ)
  IsGrouped gs = Ordered (λ g h. g.0 ≢ h.0) gs × All (λ g. g.1 ≢ []) gs

  append-ne-nil : (rows : List A) (a : A) → rows ++ a ∷ [] ≢ []
  append-ne-nil [] a = λ e. cc
  append-ne-nil (b ∷ rows) a = λ e. cc

  All-push_group :
      (i k : K) (a : A) (gs : Groups K A)
      → i ≢ k
      → All (λ h. i ≢ h.0) gs
      → All (λ h. i ≢ h.0) (push_group eq k a gs)
  unfolding push_group
  All-push_group i k a [] ne h = (ne, tt)
  All-push_group i k a ((j, rows) ∷ gs) ne (p, h) = elim (Bool-cases (eq j k)) [
    | inl e ↦ rw e (p, h)
    | inr e ↦ rw e (p, All-push_group i k a gs ne h)
  ]

  pub push_group-IsGrouped :
      (k : K) (a : A) (gs : Groups K A) → IsGrouped gs → IsGrouped (push_group eq k a gs)
  unfolding push_group
  push_group-IsGrouped k a [] h = ((tt, tt), (λ e. cc, tt))
  push_group-IsGrouped k a ((j, rows) ∷ gs) ((apart, later), (full, rest)) =
      elim (Bool-cases (eq j k)) [
        | inl e ↦ rw e ((apart, later), (append-ne-nil rows a, rest))
        | inr e ↦
            let (later', rest') = push_group-IsGrouped k a gs (later, rest) in
            rw e (
              (All-push_group j k a gs (λ same. cc ((eq_iff j k).1 same, e)) apart, later'),
              (full, rest'),
            )
      ]

  place-IsGrouped :
      (o : Option K) (a : A) (gs : Groups K A) → IsGrouped gs → IsGrouped (place eq o a gs)
  unfolding place
  place-IsGrouped none a gs h = h
  place-IsGrouped (some k) a gs h = push_group-IsGrouped k a gs h

  pub group_from-IsGrouped :
      (key : A → Option K) (gs : Groups K A) (xs : List A)
      → IsGrouped gs
      → IsGrouped (group_from eq key gs xs)
  unfolding group_from
  group_from-IsGrouped key gs [] h = h
  group_from-IsGrouped key gs (a ∷ rest) h =
      group_from-IsGrouped key (place eq (key a) a gs) rest (place-IsGrouped (key a) a gs h)
