-- ===== src/Copy/Load.antt =====
-- What frontend/src/i18n/operationalCopy.ts does when it is loaded: it merges its tables, finds the
-- texts without a phrase, and gives each the line of the hand-authored list in its place. A list that
-- is absent or of another length is an error, which here is `none`.
use llm_evaluation.Prelude.{
  Bool, not, ◌&&◌, ◌==◌, if◌then◌else◌, Option, none, some, List, [], ◌∷◌, length, all, keep,
  or_else, truthy, Text, codes,
}
use llm_evaluation.Catalog.{Locale}
use llm_evaluation.Copy.{Phrases, find_phrase, set_phrase, locale_index, Tables}

-- The constants of the file.
pub record Sources : Type 0 where
  pub words : List (Text × List Text)
  pub protocol_profile_phrases : Locale → Phrases
  pub phrases : Locale → Phrases
  pub redesigned_workspace_phrases : Locale → Phrases
  pub localization_completion_phrases : Locale → Phrases
  pub materialized_static_label_phrases : Locale → Phrases
  pub hand_authored_translations : Locale → Option (List Text)
  pub static_source_texts : List Text

-- `Object.assign(target, source)`.
unfoldable pub assign : Phrases → Phrases → Phrases
assign target [] = target
assign target ((k, v) ∷ source) = assign (set_phrase k v target) source

-- `localeIds.slice(1)`.
abbrev pub translated_locales : List Locale
translated_locales =
    Locale.zh_cn ∷ Locale.fr ∷ Locale.de ∷ Locale.ru ∷ Locale.ja ∷ Locale.ko ∷ Locale.ms ∷ []

unfoldable pub merged_phrases : Sources → Locale → Phrases
merged_phrases c locale =
    assign
      (assign (assign (c.phrases locale) (c.redesigned_workspace_phrases locale))
        (c.localization_completion_phrases locale))
      (c.materialized_static_label_phrases locale)

-- `Boolean(phrases[text])`.
abbrev pub has_phrase : Phrases → Text → Bool
has_phrase m text = truthy (or_else (find_phrase m text) [])

unfoldable pub is_unauthored : Sources → Text → Bool
is_unauthored c source =
    all
      (λ locale.
        not (has_phrase (c.protocol_profile_phrases locale) source)
        && not (has_phrase (merged_phrases c locale) source))
      translated_locales

unfoldable pub hand_authored_sources : Sources → List Text
hand_authored_sources c = keep (is_unauthored c) c.static_source_texts

-- `sources.map((source, index) => [source, translations[index]!])`, for lists of one length.
abbrev pub zip : List Text → List Text → Phrases
zip (s ∷ ss) (t ∷ ts) = (s, t) ∷ zip ss ts
zip _ _ = []

-- An assignment to `phrases[locale]`.
unfoldable pub update_phrases : Locale → (Phrases → Phrases) → (Locale → Phrases) → Locale → Phrases
update_phrases locale change phrases other =
    if locale_index locale == locale_index other then change (phrases other) else phrases other

unfoldable pub add_hand_authored :
    (Locale → Option (List Text))
    → List Text
    → List Locale
    → (Locale → Phrases)
    → Option (Locale → Phrases)
add_hand_authored lists sources [] phrases = some phrases
add_hand_authored lists sources (locale ∷ locales) phrases = elim (lists locale) [
  | none ↦ none
  | some ts ↦
      let rest =
        add_hand_authored lists sources locales
          (update_phrases locale (λ m. assign m (zip sources ts)) phrases) in
      if length ts == length sources then rest else none
]

abbrev pub tables_of : Sources → (Locale → Phrases) → Tables
tables_of c phrases = record {
  protocol_profile_phrases = c.protocol_profile_phrases;
  phrases =
      update_phrases Locale.ja (set_phrase (codes "My local model") (codes "ローカル モデル")) phrases;
  words = c.words;
  static_source_texts = c.static_source_texts;
}

unfoldable pub load_tables : Sources → Option Tables
load_tables c =
    elim (add_hand_authored c.hand_authored_translations (hand_authored_sources c)
      translated_locales (merged_phrases c)) [
        | none ↦ none
        | some phrases ↦ some (tables_of c phrases)
      ]
