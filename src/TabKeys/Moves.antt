-- ===== src/TabKeys/Moves.antt =====
-- Where the keys lead.
use native.Mathlib.Nat.{mod-eq_of_lt, mod_self, add-mod_right}
use mathlib.Core.List.{append-nil}
use llm_evaluation.Prelude.{
  suc, ◌+◌, ◌-◌, ◌%◌, ◌<◌, ◌≡◌, refl, sym, ap, ◌∙◌, Option, none, some, List, [], ◌∷◌, ◌++◌, Text,
  get_elem?, length, length-append, arith,
}
use llm_evaluation.TabKeys.{
  pos, arrow_right, arrow_left, home, end, other, minus_one, plus, remainder, next_index,
  activate_tab, handle_key_down,
}

abbrev pub first : List Text → Option Text
first [] = none
first (t ∷ tabs) = some t

abbrev pub last : List Text → Option Text
last [] = none
last (t ∷ []) = some t
last (t ∷ u ∷ tabs) = last (u ∷ tabs)

get_elem?-zero : (tabs : List Text) → get_elem? tabs 0 ≡ first tabs
get_elem?-zero [] = refl
get_elem?-zero (t ∷ tabs) = refl

get_elem?-behind :
    (before : List Text) (tab : Text) (behind : List Text)
    → get_elem? (before ++ tab ∷ behind) (length before + 1) ≡ first behind
get_elem?-behind [] tab behind = get_elem?-zero behind
get_elem?-behind (t ∷ before) tab behind =
    let same : suc (length before) + 1 ≡ suc (length before + 1) = omega arith in
    rw (same, get_elem?-behind before tab behind)

get_elem?-last :
    (t : Text) (tabs rest : List Text)
    → get_elem? (t ∷ tabs ++ rest) (length tabs) ≡ last (t ∷ tabs)
get_elem?-last t [] rest = refl
get_elem?-last t (u ∷ tabs) rest = get_elem?-last u tabs rest

get_elem?-whole :
    (t : Text) (tabs : List Text) → get_elem? (t ∷ tabs) (length tabs) ≡ last (t ∷ tabs)
get_elem?-whole t [] = refl
get_elem?-whole t (u ∷ tabs) = get_elem?-whole u tabs

last-append :
    (tabs : List Text) (t : Text) (rest : List Text) → last (tabs ++ t ∷ rest) ≡ last (t ∷ rest)
last-append [] t rest = refl
last-append (u ∷ []) t rest = refl
last-append (u ∷ v ∷ tabs) t rest = last-append (v ∷ tabs) t rest

right_lem :
    (before : List Text) (tab : Text) (behind : List Text)
    → let tabs = before ++ tab ∷ behind in
      get_elem? tabs ((length before + 1) % length tabs) ≡ first (behind ++ before ++ tab ∷ [])
right_lem before tab [] =
    let tabs = before ++ tab ∷ [] in
    let full : length before + 1 ≡ length tabs = omega (arith, length-append before (tab ∷ [])) in
    let start : (length before + 1) % length tabs ≡ 0 =
      ap (λ k. k % length tabs) full ∙ mod_self (length tabs) in
    rw start (get_elem?-zero tabs)
right_lem before tab (t ∷ behind) =
    let tabs = before ++ tab ∷ t ∷ behind in
    let less : length before + 1 < length tabs =
      omega (arith, length-append before (tab ∷ t ∷ behind)) in
    let same : (length before + 1) % length tabs ≡ length before + 1 = mod-eq_of_lt less in
    rw same (get_elem?-behind before tab (t ∷ behind))

left_lem :
    (before : List Text) (tab : Text) (behind : List Text)
    → let tabs = before ++ tab ∷ behind in
      activate_tab tabs (remainder (plus (minus_one (length before)) (length tabs)) (length tabs))
      ≡ last (tab ∷ behind ++ before)
unfolding activate_tab
left_lem [] tab behind =
    let n = length (tab ∷ behind) in
    let less : n - 1 < n = omega arith in
    let around : plus (minus_one 0) n ≡ pos (n - 1) = ground arith in
    let same : (n - 1) % n ≡ n - 1 = mod-eq_of_lt less in
    let count : n - 1 ≡ length behind = omega arith in
    rw (around, same, count, append-nil behind) (get_elem?-whole tab behind)
left_lem (t ∷ before) tab behind =
    let n = length (t ∷ before ++ tab ∷ behind) in
    let less : length before < n = omega (arith, length-append before (tab ∷ behind)) in
    let same : (length before + n) % n ≡ length before =
      add-mod_right (length before) n ∙ mod-eq_of_lt less in
    rw same (get_elem?-last t before (tab ∷ behind) ∙ sym (last-append (tab ∷ behind) t before))

end_lem :
    (before : List Text) (tab : Text) (behind : List Text)
    → activate_tab (before ++ tab ∷ behind) (minus_one (length (before ++ tab ∷ behind)))
      ≡ last (tab ∷ behind)
unfolding activate_tab
end_lem [] tab behind = get_elem?-whole tab behind
end_lem (t ∷ before) tab behind =
    get_elem?-whole t (before ++ tab ∷ behind) ∙ last-append (t ∷ before) tab behind

-- On a tab, the right arrow activates the next tab and behind the last one the first; the left arrow
-- activates the tab before, and before the first one the last; Home and End activate the first and
-- the last tab; no other key does anything.
pub handle_key_down-around :
    (before : List Text) (tab : Text) (behind : List Text)
    → let tabs = before ++ tab ∷ behind in
      let index = length before in
      (handle_key_down tabs arrow_right index ≡ first (behind ++ before ++ tab ∷ []))
      × (handle_key_down tabs arrow_left index ≡ last (tab ∷ behind ++ before))
      × (handle_key_down tabs home index ≡ first tabs)
      × (handle_key_down tabs end index ≡ last (tab ∷ behind))
      × ((name : Text) → handle_key_down tabs (other name) index ≡ none)
unfolding handle_key_down next_index activate_tab
handle_key_down-around before tab behind =
    let tabs = before ++ tab ∷ behind in
    (
      right_lem before tab behind,
      left_lem before tab behind,
      get_elem?-zero tabs,
      end_lem before tab behind,
      λ name. refl,
    )
