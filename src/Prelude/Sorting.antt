-- ===== src/Prelude/Sorting.antt =====
-- `Array.prototype.sort` with a comparator: a stable sort, written as insertion from the right.
use Prim.Native.Nat.{ℕ, zero, suc, Ordering}
use mathlib.Core.Path.{◌≡◌, refl, ap, ◌∙◌}
use mathlib.Core.Bool.{Bool, true, false}
use mathlib.Core.Logic.{inl, inr}
use mathlib.Core.List.{List, [], ◌∷◌, Perm}
use mathlib.Core.List.Perm
use native.Mathlib.Omega.{arith}
use llm_evaluation.Prelude.Tests.{if◌then◌else◌, Bool-cases}
use llm_evaluation.Prelude.Lists.{All, All-take, All-drop, length, take, drop}

-- `compare(a, b) > 0`.
abbrev pub is_gt : Ordering → Bool
is_gt Ordering.lt = false
is_gt Ordering.eq = false
is_gt Ordering.gt = true

module _ {ℓ} {A : Type ℓ} (compare : A → A → Ordering) where
  unfoldable pub insert : A → List A → List A
  insert x [] = x ∷ []
  insert x (y ∷ ys) = if is_gt (compare x y) then y ∷ insert x ys else x ∷ y ∷ ys

  unfoldable pub sort : List A → List A
  unfolding insert
  sort [] = []
  sort (x ∷ xs) = insert x (sort xs)

  insert-perm : (x : A) (xs : List A) → Perm (insert x xs) (x ∷ xs)
  unfolding insert
  insert-perm x [] = Perm.refl (x ∷ [])
  insert-perm x (y ∷ ys) = elim (Bool-cases (is_gt (compare x y))) [
    | inl e ↦ rw e (Perm.trans (Perm.cons y (insert-perm x ys)) (Perm.swap x y ys))
    | inr e ↦ rw e (Perm.refl (x ∷ y ∷ ys))
  ]

  pub sort-perm : (xs : List A) → Perm (sort xs) xs
  unfolding sort
  sort-perm [] = Perm.refl []
  sort-perm (x ∷ xs) = Perm.trans (insert-perm x (sort xs)) (Perm.cons x (sort-perm xs))

  pub length-sort : (xs : List A) → length (sort xs) ≡ length xs
  unfolding sort
  length-sort [] = refl
  length-sort (x ∷ xs) = length-insert x (sort xs) ∙ ap suc (length-sort xs)
    where
      length-insert : (x : A) (ys : List A) → length (insert x ys) ≡ suc (length ys)
      length-insert x [] = refl
      length-insert x (y ∷ ys) = ground (arith, length-insert x ys)

-- Each item stands in the relation to all behind it.
module _ {ℓ κ} {A : Type ℓ} (R : A → A → Type κ) where
  abbrev pub Ordered : List A → Type κ
  Ordered [] = Unit
  Ordered (x ∷ xs) = All (R x) xs × Ordered xs

  -- The items that are kept by a cut stand in the relation to those that are not.
  pub Ordered-cut :
      (n : ℕ) (xs : List A) → Ordered xs → All (λ a. All (R a) (drop n xs)) (take n xs)
  Ordered-cut zero xs h = tt
  Ordered-cut (suc n) [] h = tt
  Ordered-cut (suc n) (x ∷ xs) (here, later) = (All-drop (R x) n xs here, Ordered-cut n xs later)

  pub Ordered-take : (n : ℕ) (xs : List A) → Ordered xs → Ordered (take n xs)
  Ordered-take zero xs h = tt
  Ordered-take (suc n) [] h = tt
  Ordered-take (suc n) (x ∷ xs) (here, later) = (All-take (R x) n xs here, Ordered-take n xs later)

  pub Ordered-drop : (n : ℕ) (xs : List A) → Ordered xs → Ordered (drop n xs)
  Ordered-drop zero xs h = h
  Ordered-drop (suc n) [] h = tt
  Ordered-drop (suc n) (x ∷ xs) (here, later) = Ordered-drop n xs later

All-map {ℓ κ μ} :
    {A : Type ℓ} (P : A → Type κ) (Q : A → Type μ) (f : (a : A) → P a → Q a) (xs : List A)
    → All P xs
    → All Q xs
All-map P Q f [] h = tt
All-map P Q f (x ∷ xs) (p, h) = (f x p, All-map P Q f xs h)

-- What holds of all items holds of all sorted ones.
module _ {ℓ κ} {A : Type ℓ} (compare : A → A → Ordering) (P : A → Type κ) where
  All-insert : (x : A) (ys : List A) → P x → All P ys → All P (insert compare x ys)
  unfolding insert
  All-insert x [] p h = (p, tt)
  All-insert x (y ∷ ys) p (q, h) = elim (Bool-cases (is_gt (compare x y))) [
    | inl e ↦ rw e (q, All-insert x ys p h)
    | inr e ↦ rw e (p, (q, h))
  ]

  pub All-sort : (xs : List A) → All P xs → All P (sort compare xs)
  unfolding sort
  All-sort [] h = tt
  All-sort (x ∷ xs) (p, h) = All-insert x (sort compare xs) p (All-sort xs h)

-- Sorting orders the list by any transitive relation that the comparator respects.
module _ {ℓ κ} {A : Type ℓ} (compare : A → A → Ordering) (R : A → A → Type κ)
    (after : (a b : A) → is_gt (compare a b) ≡ true → R b a)
    (before : (a b : A) → is_gt (compare a b) ≡ false → R a b)
    (trans : (a b c : A) → R a b → R b c → R a c) where
  insert-Ordered : (x : A) (ys : List A) → Ordered R ys → Ordered R (insert compare x ys)
  unfolding insert
  insert-Ordered x [] h = (tt, tt)
  insert-Ordered x (y ∷ ys) (here, later) = elim (Bool-cases (is_gt (compare x y))) [
    | inl e ↦ rw e (All-insert compare (R y) x ys (after x y e) here, insert-Ordered x ys later)
    | inr e ↦ rw e (
      (before x y e, All-map (R y) (R x) (λ z. trans x y z (before x y e)) ys here),
      (here, later),
    )
  ]

  pub sort-Ordered : (xs : List A) → Ordered R (sort compare xs)
  unfolding sort
  sort-Ordered [] = tt
  sort-Ordered (x ∷ xs) = insert-Ordered x (sort compare xs) (sort-Ordered xs)
