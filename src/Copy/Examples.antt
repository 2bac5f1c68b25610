-- ===== src/Copy/Examples.antt =====
-- A small interface of two texts: one has a phrase in each locale, the other a line of the lists.
use llm_evaluation.Prelude.{
  ◌≡◌, ◌↔◌, ◌⊎◌, inl, refl, true, some, List, [], ◌∷◌, or_else, truthy, Text, codes, text_eq,
  includes, is_space, drop_start, drop_end, All,
}
use llm_evaluation.Catalog.{Locale}
use llm_evaluation.Copy.{
  Tables, find_phrase, set_phrase, exact_phrase, padded, leading, trailing, find_word,
  lower_letters, dashed_word, letters, letter_mark_at, replaced_word, replace_words,
  translate_padded, translate_static_text, translate_static_template, fill_marks,
}
use llm_evaluation.Copy.Load.{
  Sources, assign, translated_locales, merged_phrases, is_unauthored, hand_authored_sources,
  update_phrases, add_hand_authored, load_tables,
}
use llm_evaluation.Copy.Startup.{load_tables_iff, load_tables-exact_phrase, IsComplete}
use llm_evaluation.Copy.Blanks.{
  IsBlank, IsMiddle, IsAround, is_translated, translate_static_text-IsAround,
}

abbrev sources : Sources
sources = record {
  words = (codes "save", codes "enregistrer" ∷ codes "enregistrer" ∷ []) ∷ [];
  protocol_profile_phrases = λ l. [];
  phrases = λ l. (codes "Add", codes "+") ∷ [];
  redesigned_workspace_phrases = λ l. [];
  localization_completion_phrases = λ l. [];
  materialized_static_label_phrases = λ l. [];
  hand_authored_translations = λ l. some (codes "!" ∷ []);
  static_source_texts = codes "Add" ∷ codes "Save" ∷ [];
}

abbrev tables : Tables
tables = record {
  protocol_profile_phrases = λ l. [];
  phrases = λ l. (codes "Add", codes "+") ∷ [];
  words = (codes "save", codes "a" ∷ codes "enregistrer" ∷ []) ∷ [];
  static_source_texts = codes "Add" ∷ codes "Save {{name}} now" ∷ [];
}

program : Unit {0}
unfolding find_phrase set_phrase exact_phrase padded leading trailing find_word lower_letters
    dashed_word letters letter_mark_at replaced_word replace_words translate_padded fill_marks
    assign merged_phrases is_unauthored hand_authored_sources update_phrases add_hand_authored
    load_tables includes text_eq is_space drop_start drop_end
program = tt

one_unauthored : hand_authored_sources sources ≡ codes "Save" ∷ []
unfolding program
one_unauthored = refl

words_around_a_mark :
    translate_static_text tables Locale.fr (codes " Save {{name}} now ")
    ≡ codes " enregistrer {{name}} now "
unfolding program translate_static_text
words_around_a_mark = refl

filled_mark :
    translate_static_template tables Locale.fr (codes "Save {{name}} now") (λ k. some (codes "x"))
    ≡ codes "enregistrer x now"
unfolding program translate_static_text translate_static_template
filled_mark = refl

unlisted_text : translate_static_text tables Locale.fr (codes "save") ≡ codes "save"
unfolding program translate_static_text
unlisted_text = refl

load_tables_iff_example :
    ((t : Tables) × (load_tables sources ≡ some t))
    ↔ All
        (IsComplete sources.hand_authored_translations (hand_authored_sources sources))
        translated_locales
load_tables_iff_example = load_tables_iff sources

complete :
    All
      (IsComplete sources.hand_authored_translations (hand_authored_sources sources))
      translated_locales
unfolding program
complete =
    let list : IsComplete sources.hand_authored_translations (hand_authored_sources sources)
        Locale.fr =
      (codes "!" ∷ [], refl, refl) in
    (list, (list, (list, (list, (list, (list, (list, tt)))))))

started : (t : Tables) × (load_tables sources ≡ some t)
started = (load_tables_iff sources).1 complete

no_blank_lines :
    (l : Locale) (ts : List Text)
    → sources.hand_authored_translations l ≡ some ts
    → All (λ s. truthy s ≡ true) ts
no_blank_lines l ts h = let e : codes "!" ∷ [] ≡ ts = cc in rw (← e) (refl, tt)

save_known : includes sources.static_source_texts (codes "Save") ≡ true
unfolding program
save_known = refl

save_unauthored : is_unauthored sources (codes "Save") ≡ true
unfolding program
save_unauthored = refl

load_tables-exact_phrase_example :
    truthy (or_else (exact_phrase started.0 Locale.fr (codes "Save")) []) ≡ true
load_tables-exact_phrase_example =
    load_tables-exact_phrase sources started.0 Locale.fr (codes "Save") started.1 no_blank_lines tt
      refl save_known (inl save_unauthored)

translate_static_text-IsAround_example :
    IsBlank (padded (codes " Save {{name}} now ")).prefix
    × IsBlank (padded (codes " Save {{name}} now ")).suffix
    × IsMiddle (codes " Save {{name}} now ")
    × IsAround
        (codes " Save {{name}} now ")
        (padded (codes " Save {{name}} now ")).source
        (codes " Save {{name}} now ")
    × (middle : Text) × IsAround
        (codes " Save {{name}} now ")
        middle
        (translate_static_text tables Locale.fr (codes " Save {{name}} now "))
    × ((middle ≡ (padded (codes " Save {{name}} now ")).source)
        ⊎ (is_translated tables Locale.fr (padded (codes " Save {{name}} now ")).source ≡ true))
translate_static_text-IsAround_example =
    translate_static_text-IsAround tables Locale.fr (codes " Save {{name}} now ")
