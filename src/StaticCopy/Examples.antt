-- ===== src/StaticCopy/Examples.antt =====
-- A button and a status in a document, under a table with one phrase.
use llm_evaluation.Prelude.{
  ◌≡◌, ◌⊎◌, inl, inr, refl, false, some, none, List, [], ◌∷◌, map, Text, codes, text_eq, includes,
  trim, cut, is_space, drop_start, drop_end, All,
}
use llm_evaluation.Catalog.{Locale}
use llm_evaluation.Copy.{
  Tables, find_phrase, exact_phrase, padded, leading, trailing, replace_words, translate_padded,
  translate_static_text,
}
use llm_evaluation.StaticCopy.{
  Parent, Attribute, Document, has_foreign_value, source_of, translated, rewrite, pass_value,
  writes_value, pass_element, writes_element, is_protected, is_kept, pass_text, writes_text, pass,
  writes, observe,
}
use llm_evaluation.StaticCopy.Observer.{observe-pass}
use llm_evaluation.StaticCopy.Shows.{
  Event, write, observed, relocated, start, view_of, run, step, view_run, view_step, shows, IsApart,
}
use llm_evaluation.StaticCopy.Refines.{run-view_run}

abbrev tables : Tables
tables = record {
  protocol_profile_phrases = λ l. [];
  phrases = λ l. (codes "Add", codes "+") ∷ [];
  words = [];
  static_source_texts = codes "Add" ∷ [];
}

abbrev to_lower_case : Text → Text
to_lower_case text = text

abbrev button : Parent
button = record { inside_protected = false; is_option = false; value = none }

abbrev absent : Attribute
absent = record { value = none; entry = none }

abbrev document : Document
document = record {
  texts =
      record { parent = button; shown = record { text = codes " Add"; entry = none } }
      ∷ record { parent = button; shown = record { text = codes "paused"; entry = none } }
      ∷ [];
  elements =
      record {
        inside_protected = false;
        placeholder = absent;
        aria_label = absent;
        title = record { value = some (codes "Add"); entry = none };
      }
      ∷ [];
}

program : Unit {0}
unfolding find_phrase exact_phrase padded leading trailing replace_words translate_padded
    translate_static_text has_foreign_value source_of translated rewrite pass_value writes_value
    pass_element writes_element is_protected is_kept pass_text writes_text pass writes observe
    includes text_eq trim is_space cut drop_start drop_end run step view_run view_step shows
program = tt

observe-pass_example :
    observe to_lower_case tables Locale.fr 2 document
    ≡ some (pass to_lower_case tables Locale.fr document)
observe-pass_example = observe-pass tables Locale.fr to_lower_case document 0

title_after :
    map (λ e. e.title.value) (pass to_lower_case tables Locale.fr document).elements
    ≡ some (codes "+") ∷ []
unfolding program
title_after = refl

abbrev history : List Event
history =
    observed
    ∷ relocated Locale.de
    ∷ write (codes "paused")
    ∷ observed
    ∷ write (codes "Add")
    ∷ relocated Locale.ja
    ∷ []

add_translated :
    (l : Locale)
    → (translated tables l (codes "Add") ≡ codes "Add")
      ⊎ (translated tables l (codes "Add") ≡ codes "+")
unfolding program
add_translated Locale.en = inl refl
add_translated l = inr refl

both_free :
    (is_kept to_lower_case button (codes "Add") ≡ false)
    × (is_kept to_lower_case button (codes "+") ≡ false)
unfolding program
both_free = (refl, refl)

apart :
    (l : Locale)
    → (is_kept to_lower_case button (translated tables l (codes "Add")) ≡ false)
      × All
          (λ other. other ≡ translated tables l (codes "Add") → other ≡ codes "Add")
          (codes "Add" ∷ codes "paused" ∷ [])
apart l = elim (add_translated l) [
  | inl e ↦ rw e (both_free.0, (λ h. h, (λ h. h, tt)))
  | inr e ↦ rw e (both_free.1, (λ h. absurd cc, (λ h. absurd cc, tt)))
]

texts-IsApart :
    All
      (IsApart tables to_lower_case button (codes "Add" ∷ codes "paused" ∷ []))
      (codes "Add" ∷ codes "paused" ∷ [])
unfolding program
texts-IsApart = (inr apart, (inl refl, tt))

run-view_run_example :
    (run tables to_lower_case history (start button Locale.fr (codes "Add"))).node.shown.text
    ≡ (view_run tables to_lower_case button history (view_of Locale.fr (codes "Add"))).shown
unfolding program
run-view_run_example =
    run-view_run tables to_lower_case button (codes "Add" ∷ codes "paused" ∷ []) texts-IsApart
      history Locale.fr (codes "Add") refl (tt, (tt, (refl, (tt, (refl, (tt, tt))))))
