-- ===== src/Prelude/Distinct.antt =====
-- `[...new Set(texts)]`: each text once, where it comes first.
use mathlib.Core.Path.{◌≡◌, refl, ap}
use mathlib.Core.Logic.{◌≢◌, inl, inr}
use mathlib.Core.Bool.{Bool, true, false, not, ◌&&◌}
use mathlib.Core.List.{List, [], ◌∷◌}
use native.Mathlib.Omega.{arith}
use llm_evaluation.Prelude.Tests.{Bool-cases}
use Prim.Native.Nat.{◌≤◌, ◌<◌}
use llm_evaluation.Prelude.Lists.{All, keep, length, length-keep-le}
use llm_evaluation.Prelude.Words.{Text, text_eq, text_eq_iff, text_eq_refl, includes}
use llm_evaluation.Prelude.Sorting.{Ordered}

infix 20 ◌⊆◌
unfoldable pub distinct : List Text → List Text
distinct [] = []
distinct (t ∷ ts) = t ∷ keep (λ u. not (text_eq t u)) (distinct ts)

pub includes-keep :
    (p : Text → Bool) (ts : List Text) (s : Text) → includes (keep p ts) s ≡ (p s && includes ts s)
unfolding includes
includes-keep p [] s = ground arith
includes-keep p (t ∷ ts) s = elim (Bool-cases (text_eq t s)) [
  | inl e ↦ let same = ap p ((text_eq_iff t s).0 e) in ground (arith, same, includes-keep p ts s)
  | inr e ↦ ground (arith, includes-keep p ts s)
]

pub includes-distinct : (ts : List Text) (s : Text) → includes (distinct ts) s ≡ includes ts s
unfolding includes distinct
includes-distinct [] s = refl
includes-distinct (t ∷ ts) s =
    ground (arith, includes-keep (λ u. not (text_eq t u)) (distinct ts) s, includes-distinct ts s)

abbrev pub IsDistinct : List Text → Type 0
IsDistinct ts = Ordered (λ s t. s ≢ t) ts

-- Each text of a list is one of another.
abbrev pub ◌⊆◌ : List Text → List Text → Type 0
ss ⊆ ts = (t : Text) → includes ss t ≡ true → includes ts t ≡ true

keep-apart :
    (s : Text) (p : Text → Bool) (ts : List Text)
    → All (λ t. s ≢ t) ts
    → All (λ t. s ≢ t) (keep p ts)
keep-apart s p [] h = tt
keep-apart s p (t ∷ ts) (here, later) = elim (Bool-cases (p t)) [
  | inl e ↦ rw e (here, keep-apart s p ts later)
  | inr e ↦ rw e (keep-apart s p ts later)
]

pub keep-IsDistinct : (p : Text → Bool) (ts : List Text) → IsDistinct ts → IsDistinct (keep p ts)
keep-IsDistinct p [] h = tt
keep-IsDistinct p (t ∷ ts) (here, later) = elim (Bool-cases (p t)) [
  | inl e ↦ rw e (keep-apart t p ts here, keep-IsDistinct p ts later)
  | inr e ↦ rw e (keep-IsDistinct p ts later)
]

without-apart : (s : Text) (ts : List Text) → All (λ t. s ≢ t) (keep (λ u. not (text_eq s u)) ts)
without-apart s [] = tt
without-apart s (t ∷ ts) = elim (Bool-cases (text_eq s t)) [
  | inl e ↦ rw e (without-apart s ts)
  | inr e ↦ rw e (λ same. cc ((text_eq_iff s t).1 same, e), without-apart s ts)
]

pub distinct-IsDistinct : (ts : List Text) → IsDistinct (distinct ts)
unfolding distinct
distinct-IsDistinct [] = tt
distinct-IsDistinct (t ∷ ts) = (
  without-apart t (distinct ts),
  keep-IsDistinct (λ u. not (text_eq t u)) (distinct ts) (distinct-IsDistinct ts),
)

-- Taking a text out of a list that has it makes the list shorter.
length-without_lt :
    (s : Text) (ts : List Text)
    → includes ts s ≡ true
    → length (keep (λ u. not (text_eq s u)) ts) < length ts
unfolding includes
length-without_lt s [] h = cc
length-without_lt s (t ∷ ts) h = elim (Bool-cases (text_eq s t)) [
  | inl e ↦ rw e (omega (arith, length-keep-le (λ u. not (text_eq s u)) ts))
  | inr e ↦
      let other : text_eq t s ≡ false = ground (arith, text_eq_iff s t, text_eq_iff t s) in
      rw e (omega (arith, length-without_lt s ts (ground arith)))
]

not-includes : (s : Text) (ts : List Text) → All (λ t. s ≢ t) ts → includes ts s ≡ false
unfolding includes
not-includes s [] h = refl
not-includes s (t ∷ ts) (here, later) =
    let same = text_eq_iff t s in ground (arith, same, not-includes s ts later, here)

sub-without :
    (s : Text) (ss ts : List Text)
    → includes ss s ≡ false
    → ss ⊆ ts
    → ss ⊆ keep (λ u. not (text_eq s u)) ts
sub-without s ss ts out sub t h =
    rw (includes-keep (λ u. not (text_eq s u)) ts t) (elim (Bool-cases (text_eq s t)) [
      | inl e ↦ let same = ap (includes ss) ((text_eq_iff s t).0 e) in ground (arith, same, out, h)
      | inr e ↦ ground (arith, sub t h)
    ])

pub length-sub_le : (ss ts : List Text) → IsDistinct ss → ss ⊆ ts → length ss ≤ length ts
unfolding includes
length-sub_le [] ts d sub = omega arith
length-sub_le (s ∷ ss) ts (here, later) sub =
    let out = keep (λ u. not (text_eq s u)) ts in
    let short = length-without_lt s ts (sub s (ground (arith, text_eq_refl s))) in
    let rest =
      length-sub_le ss out later
        (sub-without s ss ts (not-includes s ss here) (λ t h. sub t (ground (arith, h)))) in
    omega (arith, short, rest)

-- A list without repetitions that is as long as one that has all its texts has all texts of that one.
pub sub-full : (ss ts : List Text) → IsDistinct ss → ss ⊆ ts → length ss ≡ length ts → ts ⊆ ss
sub-full ss ts d sub same t h = elim (Bool-cases (includes ss t)) [
  | inl e ↦ e
  | inr e ↦
      let short = length-without_lt t ts h in
      let rest =
        length-sub_le ss (keep (λ u. not (text_eq t u)) ts) d (sub-without t ss ts e sub) in
      absurd (omega (arith, short, rest))
]
