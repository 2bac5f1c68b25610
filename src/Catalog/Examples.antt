-- ===== src/Catalog/Examples.antt =====
-- Texts of the workspace and the theorems at concrete inputs.
use llm_evaluation.Prelude.{◌≡◌, refl, Option, none, some, List, [], ◌∷◌, Text, codes, arith}
use llm_evaluation.Catalog.Interpolate.{interpolate, replace_marks, mark_at, word, closes}
use llm_evaluation.Catalog.Templates.{
  Piece, plain, mark, template_of, filled, interpolate-template_of,
}

abbrev counts : Text → Option Text
counts name = some (codes "12")

program : Unit {0}
unfolding interpolate replace_marks mark_at word closes
program = tt

one : interpolate (codes "{{count}} runs") (some counts) ≡ codes "12 runs"
unfolding program
one = refl

missing : interpolate (codes "{{count}} runs") (some (λ name. none)) ≡ codes " runs"
unfolding program
missing = refl

no_mark : interpolate (codes "{{} {{ a}} {{b}") (some counts) ≡ codes "{{} {{ a}} {{b}"
unfolding program
no_mark = refl

plain_text : interpolate (codes "{{count}} runs") none ≡ codes "{{count}} runs"
unfolding program
plain_text = refl

abbrev pieces : List Piece
pieces = mark (codes "n") ∷ plain 32 ∷ plain 120 ∷ []

interpolate-template_of_example :
    interpolate (template_of pieces) (some counts) ≡ filled counts pieces
interpolate-template_of_example =
    interpolate-template_of counts pieces ((refl, (refl, tt)), (omega arith, (omega arith, tt)))
