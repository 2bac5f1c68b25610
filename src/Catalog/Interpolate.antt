-- ===== src/Catalog/Interpolate.antt =====
-- frontend/src/i18n/LocaleProvider.tsx: the texts of the workspace in the chosen locale, with values
-- put in place of the marks `{{name}}`.
use llm_evaluation.Prelude.{
  ℕ, zero, suc, Bool, false, ◌&&◌, ◌||◌, leb, ◌==◌, if◌then◌else◌, Option, none, some, [], ◌∷◌,
  ◌++◌, Text, codes, length, or_else, truthy,
}
use llm_evaluation.Catalog.Keys.{TranslationKey}
use llm_evaluation.Catalog.{Locale, catalogs, resolve_locale, locale_id}

-- `\w`.
abbrev pub is_word_char : ℕ → Bool
is_word_char c = leb 48 c && leb c 57 || leb 65 c && leb c 90 || c == 95 || leb 97 c && leb c 122

-- The longest word at the start of a text, and what is behind it.
unfoldable pub word : Text → Text × Text
word [] = ([], [])
word (c ∷ s) = let (name, rest) = word s in if is_word_char c then (c ∷ name, rest) else ([], c ∷ s)

-- `}}` behind a name closes a mark.
unfoldable pub closes : Text → Bool
closes (a ∷ b ∷ rest) = a == 125 && b == 125
closes _ = false

-- The name of the mark at the start of a text.
unfoldable pub mark_at : Text → Option Text
mark_at [] = none
mark_at (a ∷ []) = none
mark_at (a ∷ b ∷ rest) =
    let (name, behind) = word rest in
    if a == 123 && b == 123 && truthy name && closes behind then some name else none

-- `template.replace(/\{\{(\w+)\}\}/g, ...)`, where `skip` characters belong to a mark already read.
unfoldable pub replace_marks : (Text → Text) → ℕ → Text → Text
replace_marks value skip [] = []
replace_marks value (suc skip) (c ∷ s) = replace_marks value skip s
replace_marks value zero (c ∷ s) = elim (mark_at (c ∷ s)) [
  | none ↦ c ∷ replace_marks value 0 s
  | some name ↦ value name ++ replace_marks value (suc (suc (suc (length name)))) s
]

-- `String(values[key] ?? "")`: `values` gives the string of a value that is there.
unfoldable pub interpolate : Text → Option (Text → Option Text) → Text
interpolate template none = template
interpolate template (some values) = replace_marks (λ name. or_else (values name) []) 0 template

-- `t` of the workspace in a locale.
unfoldable pub translate : Locale → TranslationKey → Option (Text → Option Text) → Text
translate locale key values = interpolate (codes (catalogs locale key)) values

-- The locale at the start, from the storage, and what `setLocale` makes the locale and the storage.
unfoldable pub start_locale : Option Text → Locale
start_locale stored = resolve_locale stored

unfoldable pub set_locale : Locale → Locale × Text
set_locale next = let locale = resolve_locale (some (locale_id next)) in (locale, locale_id locale)
