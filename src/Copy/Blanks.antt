-- ===== src/Copy/Blanks.antt =====
-- What the translation of a text keeps: the blanks around it, and all of a text of the service.
use llm_evaluation.Prelude.{
  ℕ, ◌-◌, ◌≡◌, ◌≤◌, ◌⊎◌, inl, inr, refl, sym, ap, Bool, true, false, ◌&&◌, ◌||◌, ◌==◌, [], ◌∷◌,
  ◌++◌, length, any, or_else, truthy, Text, includes, is_space, drop_start, drop_end, cut, arith,
  Bool-cases, and-split, ==_iff, All,
}
use mathlib.Core.List.{append-nil, append_assoc}
use llm_evaluation.Catalog.{Locale}
use llm_evaluation.Copy.{
  Tables, padded, leading, trailing, is_line_end, exact_phrase, replace_words,
  translate_static_text, translate_padded, locale_index,
}

leading-append : (s : Text) → leading s ++ drop_start is_space s ≡ s
unfolding leading drop_start
leading-append [] = refl
leading-append (c ∷ s) = ground (arith, leading-append s)

length-trailing_le : (s : Text) → length (trailing s) ≤ length s
unfolding trailing
length-trailing_le [] = omega arith
length-trailing_le (c ∷ s) = ground (arith, length-trailing_le s)

-- A text ends in as many blanks as it is long exactly when it is all blank.
trailing-all :
    (s : Text) → length (trailing s) ≡ length s → (drop_end is_space s ≡ []) × (trailing s ≡ s)
unfolding trailing drop_end cut
trailing-all [] h = (refl, refl)
trailing-all (c ∷ s) h =
    let short = length-trailing_le s in
    elim (Bool-cases (is_space c && length (trailing s) == length s)) [
      | inl e ↦
          let both = and-split (is_space c) (length (trailing s) == length s) e in
          let rest = trailing-all s ((==_iff (length (trailing s)) (length s)).0 both.1) in
          (rw (rest.0, cut, both.0), rw (e, rest.1))
      | inr e ↦ absurd (let k = rw e at h in omega (arith, k, short))
    ]

cut-append :
    (c : ℕ) (rest s body : Text)
    → body ++ rest ≡ s
    → (is_space c && length rest == length s) ≡ false
    → cut is_space c body ++ rest ≡ c ∷ s
unfolding cut
cut-append c rest s (d ∷ body) h e = ap (λ t. c ∷ t) h
cut-append c rest s [] h e = ground (arith, ==_iff (length rest) (length s), ap length h)

trailing-append : (s : Text) → drop_end is_space s ++ trailing s ≡ s
unfolding trailing drop_end
trailing-append [] = refl
trailing-append (c ∷ s) = elim (Bool-cases (is_space c && length (trailing s) == length s)) [
  | inl e ↦
      let both = and-split (is_space c) (length (trailing s) == length s) e in
      let rest = trailing-all s ((==_iff (length (trailing s)) (length s)).0 both.1) in
      let whole = ap (λ t. c ∷ t) rest.1 in rw (e, rest.0, both.0, rest.1)
  | inr e ↦
      let k = cut-append c (trailing s) s (drop_end is_space s) (trailing-append s) e in
      ground (arith, k)
]

abbrev pub IsBlank : Text → Type 0
IsBlank s = All (λ c. is_space c ≡ true) s

leading-IsBlank : (s : Text) → IsBlank (leading s)
unfolding leading
leading-IsBlank [] = tt
leading-IsBlank (c ∷ s) = elim (Bool-cases (is_space c)) [
  | inl e ↦ rw e (e, leading-IsBlank s)
  | inr e ↦ rw e tt
]

trailing-IsBlank : (s : Text) → IsBlank (trailing s)
unfolding trailing
trailing-IsBlank [] = tt
trailing-IsBlank (c ∷ s) = elim (Bool-cases (is_space c && length (trailing s) == length s)) [
  | inl e ↦
      let blank = (and-split (is_space c) (length (trailing s) == length s) e).0 in
      rw e (blank, trailing-IsBlank s)
  | inr e ↦ rw e (trailing-IsBlank s)
]

-- The two outer parts of a text are blanks.
padded-IsBlank : (text : Text) → IsBlank (padded text).prefix × IsBlank (padded text).suffix
unfolding padded
padded-IsBlank text =
    let start = drop_start is_space text in
    elim (Bool-cases (any is_line_end (drop_end is_space start))) [
      | inl e ↦ rw e (tt, tt)
      | inr e ↦ rw e (leading-IsBlank text, trailing-IsBlank start)
    ]

-- A text without the blanks around it.
abbrev pub trimmed : Text → Text
trimmed text = drop_end is_space (drop_start is_space text)

-- The middle is the text without the blanks around it, unless this has a line end in it.
abbrev pub IsMiddle : Text → Type 0
IsMiddle text = (any is_line_end (trimmed text) ≡ true) ⊎ ((padded text).source ≡ trimmed text)

padded-IsMiddle : (text : Text) → IsMiddle text
unfolding padded
padded-IsMiddle text = elim (Bool-cases (any is_line_end (trimmed text))) [
  | inl e ↦ inl e
  | inr e ↦ inr (rw e)
]

-- The three parts of a text make the text.
padded-append :
    (text : Text) → (padded text).prefix ++ (padded text).source ++ (padded text).suffix ≡ text
unfolding padded
padded-append text =
    let start = drop_start is_space text in
    elim (Bool-cases (any is_line_end (drop_end is_space start))) [
      | inl e ↦
          let p : padded text ≡ record { prefix = []; source = text; suffix = [] } = rw e in
          rw (p, append-nil text)
      | inr e ↦
          let p : padded text ≡ record {
            prefix = leading text;
            source = drop_end is_space start;
            suffix = trailing start;
          } =
            rw e in
          rw (p, append_assoc, trailing-append start, leading-append text)
    ]

-- A text that the program may translate: one of its own, or one with a phrase.
abbrev pub is_translated : Tables → Locale → Text → Bool
is_translated t locale source =
    includes t.static_source_texts source || truthy (or_else (exact_phrase t locale source) [])

-- The text `new` has `middle` where `text` has what is between its blanks.
abbrev pub IsAround : Text → Text → Text → Type 0
IsAround text middle new = new ≡ (padded text).prefix ++ middle ++ (padded text).suffix

translate_padded-IsAround :
    (t : Tables) (locale : Locale) (text : Text)
    → (middle : Text) × IsAround text middle (translate_padded t locale text (padded text))
      × ((middle ≡ (padded text).source) ⊎ (is_translated t locale (padded text).source ≡ true))
unfolding translate_padded
translate_padded-IsAround t locale text =
    let source = (padded text).source in
    let exact = or_else (exact_phrase t locale source) [] in
    elim (Bool-cases (truthy exact)) [
      | inl e ↦ (exact, ground arith, inr (ground arith))
      | inr e ↦ elim (Bool-cases (includes t.static_source_texts source)) [
        | inl i ↦ (
          replace_words t.words (locale_index locale - 1) 0 0 source,
          ground arith,
          inr (ground arith),
        )
        | inr i ↦ (source, ground (arith, padded-append text), inl refl)
      ]
    ]

-- Translating a text keeps the blanks around it: the text is blanks, a middle and blanks, and so is
-- its translation, with the same blanks and another middle. The middle of a text is the text without
-- its blanks, unless this has a line end in it. The middle stays too, unless it is one of the
-- program's own texts or has a phrase in the locale.
pub translate_static_text-IsAround :
    (t : Tables) (locale : Locale) (text : Text)
    → IsBlank (padded text).prefix
      × IsBlank (padded text).suffix
      × IsMiddle text
      × IsAround text (padded text).source text
      × (middle : Text) × IsAround text middle (translate_static_text t locale text)
      × ((middle ≡ (padded text).source) ⊎ (is_translated t locale (padded text).source ≡ true))
unfolding translate_static_text
translate_static_text-IsAround t Locale.en text =
    let (before, behind) = padded-IsBlank text in
    let whole = sym (padded-append text) in
    (before, behind, padded-IsMiddle text, whole, (padded text).source, whole, inl refl)
translate_static_text-IsAround t locale text =
    let around = translate_padded-IsAround t locale text in
    let (before, behind) = padded-IsBlank text in
    (before, behind, padded-IsMiddle text, sym (padded-append text), around.0, around.1, around.2)
