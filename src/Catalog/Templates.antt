-- ===== src/Catalog/Templates.antt =====
-- Templates written from pieces: putting values in place of marks gives the pieces with the values.
use llm_evaluation.Prelude.{
  ℕ, suc, ◌≡◌, ◌≢◌, refl, ap, ◌∙◌, true, Option, none, some, List, [], ◌∷◌, ◌++◌, Text, length,
  or_else, truthy, All, arith,
}
use llm_evaluation.Catalog.Interpolate.{
  is_word_char, word, closes, mark_at, replace_marks, interpolate,
}

pub data Piece : Type 0 where
  plain : ℕ → Piece
  mark : Text → Piece

-- A character that opens no mark, or a name that is a word.
abbrev pub IsPiece : Piece → Type 0
IsPiece (plain c) = c ≢ 123
IsPiece (mark name) = (truthy name ≡ true) × All (λ c. is_word_char c ≡ true) name

abbrev pub template_of : List Piece → Text
template_of [] = []
template_of (plain c ∷ pieces) = c ∷ template_of pieces
template_of (mark name ∷ pieces) = 123 ∷ 123 ∷ name ++ 125 ∷ 125 ∷ template_of pieces

abbrev pub filled : (Text → Option Text) → List Piece → Text
filled values [] = []
filled values (plain c ∷ pieces) = c ∷ filled values pieces
filled values (mark name ∷ pieces) = or_else (values name) [] ++ filled values pieces

word-append :
    (name rest : Text)
    → All (λ c. is_word_char c ≡ true) name
    → word (name ++ 125 ∷ rest) ≡ (name, 125 ∷ rest)
unfolding word
word-append [] rest h = refl
word-append (c ∷ name) rest (w, h) = rw (word-append name rest h, w) refl

mark_at-mark :
    (name rest : Text)
    → IsPiece (mark name)
    → mark_at (123 ∷ 123 ∷ name ++ 125 ∷ 125 ∷ rest) ≡ some name
unfolding mark_at closes
mark_at-mark name rest (t, h) = rw (word-append name (125 ∷ rest) h, t) refl

mark_at-plain : (c : ℕ) (s : Text) → c ≢ 123 → mark_at (c ∷ s) ≡ none
unfolding mark_at
mark_at-plain c [] h = refl
mark_at-plain c (b ∷ rest) h = ground arith

replace_marks-skip :
    (value : Text → Text) (name rest : Text)
    → replace_marks value (suc (suc (length name))) (name ++ 125 ∷ 125 ∷ rest)
      ≡ replace_marks value 0 rest
unfolding replace_marks
replace_marks-skip value [] rest = refl
replace_marks-skip value (c ∷ name) rest = replace_marks-skip value name rest

replace_marks-mark :
    (value : Text → Text) (name rest : Text)
    → IsPiece (mark name)
    → replace_marks value 0 (123 ∷ 123 ∷ name ++ 125 ∷ 125 ∷ rest)
      ≡ value name ++ replace_marks value 0 rest
unfolding replace_marks
replace_marks-mark value name rest h =
    rw (mark_at-mark name rest h, replace_marks)
      (ap (◌++◌ (value name)) (replace_marks-skip value name rest))

replace_marks-plain :
    (value : Text → Text) (c : ℕ) (s : Text)
    → c ≢ 123
    → replace_marks value 0 (c ∷ s) ≡ c ∷ replace_marks value 0 s
unfolding replace_marks
replace_marks-plain value c s h = rw (mark_at-plain c s h, replace_marks) refl

-- A template written from characters other than an opening brace and marks whose names are words
-- becomes the characters with the values in place of the marks.
pub interpolate-template_of :
    (values : Text → Option Text) (pieces : List Piece)
    → All IsPiece pieces
    → interpolate (template_of pieces) (some values) ≡ filled values pieces
unfolding interpolate replace_marks
interpolate-template_of values [] h = refl
interpolate-template_of values (plain c ∷ pieces) (p, h) =
    replace_marks-plain (λ n. or_else (values n) []) c (template_of pieces) p
    ∙ ap (◌∷◌ c) (interpolate-template_of values pieces h)
interpolate-template_of values (mark name ∷ pieces) (p, h) =
    replace_marks-mark (λ n. or_else (values n) []) name (template_of pieces) p
    ∙ ap (◌++◌ (or_else (values name) [])) (interpolate-template_of values pieces h)
