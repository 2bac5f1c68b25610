-- ===== src/StaticCopy/Shows.antt =====
-- What a text of the document shows while the interface writes texts, passes run and the locale
-- changes, in any order: against a view of it that remembers the text last written and nothing else.
use llm_evaluation.Prelude.{
  ◌≡◌, ◌⊎◌, true, false, if◌then◌else◌, none, List, [], ◌∷◌, Text, includes, All,
}
use llm_evaluation.Catalog.{Locale}
use llm_evaluation.Copy.{Tables}
use llm_evaluation.StaticCopy.{Parent, TextNode, translated, is_kept, pass_text}

-- The interface writes a text, the observer runs, or the locale changes and the effect runs.
pub data Event : Type 0 where
  write : Text → Event
  observed : Event
  relocated : Locale → Event

pub record State : Type 0 where
  pub locale : Locale
  pub node : TextNode

-- The text that was last written, and what is shown for it.
pub record View : Type 0 where
  pub locale : Locale
  pub written : Text
  pub shown : Text

abbrev pub start : Parent → Locale → Text → State
start parent locale text = record {
  locale = locale;
  node = record { parent = parent; shown = record { text = text; entry = none } };
}

abbrev pub view_of : Locale → Text → View
view_of locale text = record { locale = locale; written = text; shown = text }

-- An event that writes a text of the list, or none.
abbrev pub IsListed : List Text → Event → Type 0
IsListed written (write text) = includes written text ≡ true
IsListed written e = Unit {0}

module _ (t : Tables) (to_lower_case : Text → Text) where
  unfoldable pub step : Event → State → State
  step (write text) s = record s {
    node = record s.node { shown = record s.node.shown { text = text } };
  }
  step observed s = record s { node = pass_text to_lower_case t s.locale s.node }
  step (relocated locale) s = record {
    locale = locale;
    node = pass_text to_lower_case t locale s.node;
  }

  unfoldable pub run : List Event → State → State
  run [] s = s
  run (e ∷ es) s = run es (step e s)

  -- A text is shown in the locale, unless it is one that stays as it is.
  unfoldable pub shows : Parent → Locale → Text → Text
  shows parent locale text =
      if is_kept to_lower_case parent text then text else translated t locale text

  unfoldable pub view_step : Parent → Event → View → View
  view_step parent (write text) v = record v { written = text; shown = text }
  view_step parent observed v = record v { shown = shows parent v.locale v.written }
  view_step parent (relocated locale) v = record v {
    locale = locale;
    shown = shows parent locale v.written;
  }

  unfoldable pub view_run : Parent → List Event → View → View
  view_run parent [] v = v
  view_run parent (e ∷ es) v = view_run parent es (view_step parent e v)

  module _ (parent : Parent) (written : List Text) where
    -- In no locale is the translation of a text one that stays as it is, or another text of the list.
    abbrev pub IsApart : Text → Type 0
    IsApart text =
        (is_kept to_lower_case parent text ≡ true)
        ⊎ ((locale : Locale)
            → (is_kept to_lower_case parent (translated t locale text) ≡ false)
              × All (λ other. other ≡ translated t locale text → other ≡ text) written)
