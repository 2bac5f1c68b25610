-- ===== src/Prelude/Words.antt =====
-- Texts. A JavaScript string is a sequence of UTF-16 code units, so a `Text` is a list of numbers;
-- the program's literals lie in the basic plane, where a code unit is a code point.
use Prim.Native.Nat.{ℕ}
use Prim.Native.Char.{code}
use Prim.Native.String.{String}
use mathlib.Core.Path.{◌≡◌, refl, ap}
use mathlib.Core.Logic.{◌↔◌, inl, inr}
use mathlib.Core.Bool.{Bool, true, false, ◌&&◌, ◌||◌}
use mathlib.Core.Option.{Option, none, some}
use mathlib.Core.List.{List, [], ◌∷◌}
use native.Mathlib.Omega.{arith}
use llm_evaluation.Prelude.Tests.{◌==◌, Bool-cases}
use llm_evaluation.Prelude.Lists.{All}

abbrev pub Text : Type 0
Text = List ℕ

-- The code units of a literal.
abbrev pub codes : String → Text
codes String.[] = []
codes (String.◌∷◌ c s) = code c ∷ codes s

-- `s === t`.
unfoldable pub text_eq : Text → Text → Bool
text_eq [] [] = true
text_eq (a ∷ s) (b ∷ t) = a == b && text_eq s t
text_eq _ _ = false

pub text_eq_sound : (s t : Text) → text_eq s t ≡ true → s ≡ t
unfolding text_eq
text_eq_sound [] [] h = refl
text_eq_sound [] (b ∷ t) h = ground arith
text_eq_sound (a ∷ s) [] h = ground arith
text_eq_sound (a ∷ s) (b ∷ t) h = ground (arith, text_eq_sound s t)

pub text_eq_refl : (s : Text) → text_eq s s ≡ true
unfolding text_eq
text_eq_refl [] = refl
text_eq_refl (a ∷ s) = ground (arith, text_eq_refl s)

pub text_eq_iff : (s t : Text) → (text_eq s t ≡ true) ↔ (s ≡ t)
text_eq_iff s t = (text_eq_sound s t, λ e. rw e (text_eq_refl t))

-- `list.includes(s)`.
unfoldable pub includes : List Text → Text → Bool
includes [] s = false
includes (t ∷ ts) s = text_eq t s || includes ts s

-- `Boolean(s)`: the empty string is falsy.
abbrev pub truthy : Text → Bool
truthy [] = false
truthy (a ∷ s) = true

-- `s || null`, and the same on a value that may be absent.
abbrev pub non_empty : Text → Option Text
non_empty [] = none
non_empty (a ∷ s) = some (a ∷ s)

abbrev pub opt_eq : Option Text → Option Text → Bool
opt_eq none none = true
opt_eq (some s) (some t) = text_eq s t
opt_eq _ _ = false

pub opt_eq_iff : (s t : Option Text) → (opt_eq s t ≡ true) ↔ (s ≡ t)
opt_eq_iff none none = (λ e. refl, λ e. refl)
opt_eq_iff none (some t) = (λ e. cc, λ e. cc)
opt_eq_iff (some s) none = (λ e. cc, λ e. cc)
opt_eq_iff (some s) (some t) =
    let (to, from) = text_eq_iff s t in (λ e. ap some (to e), λ e. ground (arith, from))

pub includes-mem :
    (P : Text → Type 0) (ts : List Text) (s : Text) → includes ts s ≡ true → All P ts → P s
unfolding includes
includes-mem P [] s h k = absurd (ground arith)
includes-mem P (t ∷ ts) s h (p, k) = elim (Bool-cases (text_eq t s)) [
  | inl same ↦ rw (← text_eq_sound t s same) p
  | inr other ↦ includes-mem P ts s (rw other at h) k
]
