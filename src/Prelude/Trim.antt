-- ===== src/Prelude/Trim.antt =====
-- `trim` and the white space that it removes, and cutting characters off the end of a text.
use Prim.Native.Nat.{ℕ}
use mathlib.Core.Path.{◌≡◌, refl}
use mathlib.Core.Bool.{Bool, ◌&&◌, ◌||◌}
use mathlib.Core.Logic.{inl, inr}
use mathlib.Core.List.{[], ◌∷◌, ◌++◌}
use llm_evaluation.Prelude.Tests.{◌==◌, leb, if◌then◌else◌, Bool-cases}
use llm_evaluation.Prelude.Words.{Text}

-- The white space of `trim`: the ASCII blanks and line ends, and the Unicode ones.
unfoldable pub is_space : ℕ → Bool
is_space c =
    (leb 9 c && leb c 13)
    || c == 32
    || c == 160
    || c == 5760
    || (leb 8192 c && leb c 8202)
    || c == 8232
    || c == 8233
    || c == 8239
    || c == 8287
    || c == 12288
    || c == 65279

-- The start of a text goes as long as the test holds.
unfoldable pub drop_start : (ℕ → Bool) → Text → Text
drop_start p [] = []
drop_start p (c ∷ s) = if p c then drop_start p s else c ∷ s

-- The end goes once the rest has gone.
unfoldable pub cut : (ℕ → Bool) → ℕ → Text → Text
cut p c [] = if p c then [] else c ∷ []
cut p c (d ∷ t) = c ∷ d ∷ t

unfoldable pub drop_end : (ℕ → Bool) → Text → Text
unfolding cut
drop_end p [] = []
drop_end p (c ∷ s) = cut p c (drop_end p s)

unfoldable pub trim : Text → Text
unfolding drop_start drop_end is_space
trim s = drop_start is_space (drop_end is_space s)

module _ (p : ℕ → Bool) where
  cut-drop_end : (c : ℕ) (s : Text) → drop_end p s ≡ s → drop_end p (cut p c s) ≡ cut p c s
  unfolding cut drop_end
  cut-drop_end c [] h = elim (Bool-cases (p c)) [
    | inl e ↦ rw (e, drop_end)
    | inr e ↦ rw (e, drop_end, cut, e)
  ]
  cut-drop_end c (d ∷ t) h = rw h

  pub drop_end_idem : (s : Text) → drop_end p (drop_end p s) ≡ drop_end p s
  unfolding drop_end
  drop_end_idem [] = refl
  drop_end_idem (c ∷ s) = cut-drop_end c (drop_end p s) (drop_end_idem s)

  -- Any number of characters that pass the test may follow.
  pub drop_end-append_all : (s t : Text) → drop_end p t ≡ [] → drop_end p (s ++ t) ≡ drop_end p s
  unfolding drop_end
  drop_end-append_all [] t h = h
  drop_end-append_all (c ∷ s) t h = rw (drop_end-append_all s t h)
