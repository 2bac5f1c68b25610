-- ===== src/TabKeys/Examples.antt =====
-- The keys on three tabs.
use llm_evaluation.Prelude.{◌≡◌, none, some, List, [], ◌∷◌, Text, codes}
use llm_evaluation.TabKeys.{arrow_right, arrow_left, home, end, other, handle_key_down}
use llm_evaluation.TabKeys.Moves.{handle_key_down-around}

abbrev three : List Text
three = codes "summary" ∷ codes "evaluations" ∷ codes "readiness" ∷ []

handle_key_down-around_example :
    (handle_key_down three arrow_right 2 ≡ some (codes "summary"))
    × (handle_key_down three arrow_left 2 ≡ some (codes "evaluations"))
    × (handle_key_down three home 2 ≡ some (codes "summary"))
    × (handle_key_down three end 2 ≡ some (codes "readiness"))
    × ((name : Text) → handle_key_down three (other name) 2 ≡ none)
handle_key_down-around_example =
    handle_key_down-around (codes "summary" ∷ codes "evaluations" ∷ []) (codes "readiness") []
