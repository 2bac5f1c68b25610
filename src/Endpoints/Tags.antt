-- ===== src/Endpoints/Tags.antt =====
-- The tags of an endpoint as one text, and back.
use llm_evaluation.Prelude.{
  ◌≡◌, inl, inr, refl, true, false, ◌==◌, List, [], ◌∷◌, ◌++◌, any, All, truthy, Text, trim, cut,
  is_space, drop_start, drop_end, Bool-cases, arith,
}
use llm_evaluation.Endpoints.{split_commas, join_commas, tags_of}

-- A text without a comma, without blanks around it, and not empty.
abbrev pub IsTag : Text → Type 0
IsTag tag = (any (λ c. c == 44) tag ≡ false) × (trim tag ≡ tag) × (truthy tag ≡ true)

split_commas-tag : (tag : Text) → any (λ c. c == 44) tag ≡ false → split_commas tag ≡ tag ∷ []
unfolding split_commas
split_commas-tag [] h = refl
split_commas-tag (c ∷ s) h = ground (arith, split_commas-tag s)

split_commas-append :
    (tag s : Text)
    → any (λ c. c == 44) tag ≡ false
    → split_commas (tag ++ 44 ∷ s) ≡ tag ∷ split_commas s
unfolding split_commas
split_commas-append [] s h = refl
split_commas-append (c ∷ tag) s h = ground (arith, split_commas-append tag s)

split_commas-head :
    (s : Text) → (piece : Text) × (pieces : List Text) × (split_commas s ≡ piece ∷ pieces)
unfolding split_commas
split_commas-head [] = ([], [], refl)
split_commas-head (c ∷ s) =
    let (piece, pieces, e) = split_commas-head s in
    elim (Bool-cases (c == 44)) [
      | inl h ↦ ([], split_commas s, rw h)
      | inr h ↦ (c ∷ piece, pieces, rw (h, e))
    ]

drop_start-cut : (s : Text) → drop_start is_space (cut is_space 32 s) ≡ drop_start is_space s
unfolding drop_start cut is_space
drop_start-cut [] = refl
drop_start-cut (c ∷ s) = refl

trim-space : (s : Text) → trim (32 ∷ s) ≡ trim s
unfolding trim drop_start drop_end cut is_space
trim-space s = drop_start-cut (drop_end is_space s)

-- A blank before the first piece is trimmed off.
tags_of-space : (s : Text) → tags_of (32 ∷ s) ≡ tags_of s
unfolding tags_of split_commas
tags_of-space s = let (piece, pieces, e) = split_commas-head s in rw (e, trim-space piece)

tags_of-append : (tag s : Text) → IsTag tag → tags_of (tag ++ 44 ∷ 32 ∷ s) ≡ tag ∷ tags_of s
unfolding tags_of
tags_of-append tag s (whole, trimmed, full) =
    let rest : tags_of (32 ∷ s) ≡ tags_of s = tags_of-space s in
    rw (split_commas-append tag (32 ∷ s) whole, trimmed, full, rest)

pub tags_of-join_commas : (tags : List Text) → All IsTag tags → tags_of (join_commas tags) ≡ tags
unfolding tags_of join_commas split_commas trim drop_start drop_end
tags_of-join_commas [] h = refl
tags_of-join_commas (tag ∷ []) ((whole, trimmed, full), h) =
    rw (split_commas-tag tag whole, trimmed, full)
tags_of-join_commas (tag ∷ next ∷ tags) (here, later) =
    rw
      (tags_of-append tag (join_commas (next ∷ tags)) here, tags_of-join_commas (next ∷ tags) later)
