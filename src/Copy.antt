-- ===== src/Copy.antt =====
-- frontend/src/i18n/operationalCopy.ts: the phrases of the operational pages, and the translation of
-- their texts. The phrases themselves are a parameter: what the file holds in its tables. A table is a
-- list of keys and values in which each key stands once; that each object of JavaScript has a few
-- names of its own is left out.
pub mod Load
pub mod Startup
pub mod Blanks
mod Examples
use llm_evaluation.Prelude.{
  ℕ, zero, suc, ◌+◌, ◌-◌, ◌≡◌, Bool, true, false, not, ◌&&◌, ◌||◌, leb, ◌==◌, if◌then◌else◌, Option,
  none, some, List, [], ◌∷◌, ◌++◌, length, get_elem?, any, or_else, or_option, truthy, Text, codes,
  text_eq, includes, is_space, drop_start, drop_end,
}
use llm_evaluation.Catalog.{Locale}

abbrev pub Phrases : Type 0
Phrases = List (Text × Text)

-- `phrases[text]` and `phrases[text] = value`.
unfoldable pub find_phrase : Phrases → Text → Option Text
find_phrase [] text = none
find_phrase ((k, v) ∷ m) text = if text_eq k text then some v else find_phrase m text

unfoldable pub set_phrase : Text → Text → Phrases → Phrases
set_phrase text value [] = (text, value) ∷ []
set_phrase text value ((k, v) ∷ m) =
    if text_eq k text then (k, value) ∷ m else (k, v) ∷ set_phrase text value m

-- `localeIds.indexOf(locale)`.
abbrev pub locale_index : Locale → ℕ
locale_index Locale.en = 0
locale_index Locale.zh_cn = 1
locale_index Locale.fr = 2
locale_index Locale.de = 3
locale_index Locale.ru = 4
locale_index Locale.ja = 5
locale_index Locale.ko = 6
locale_index Locale.ms = 7

-- What the program translates by, once it is loaded.
pub record Tables : Type 0 where
  pub protocol_profile_phrases : Locale → Phrases
  pub phrases : Locale → Phrases
  pub words : List (Text × List Text)
  pub static_source_texts : List Text

-- A word of the vocabulary in all locales but English.
unfoldable pub find_word : List (Text × List Text) → Text → Option (List Text)
find_word [] word = none
find_word ((k, v) ∷ m) word = if text_eq k word then some v else find_word m word

-- `[A-Za-z]`.
abbrev pub is_letter : ℕ → Bool
is_letter c = leb 65 c && leb c 90 || leb 97 c && leb c 122

-- `toLowerCase` on letters and dashes.
unfoldable pub lower_letters : Text → Text
lower_letters [] = []
lower_letters (c ∷ s) = (if leb 65 c && leb c 90 then c + 32 else c) ∷ lower_letters s

abbrev pub starts_with_letter : Text → Bool
starts_with_letter [] = false
starts_with_letter (c ∷ s) = is_letter c

-- The longest `[A-Za-z]+(?:-[A-Za-z]+)*` at the start of a text that starts with a letter, and behind
-- its first letter.
unfoldable pub dashed_word : Text → Text
dashed_word [] = []
dashed_word (c ∷ s) =
    let rest = dashed_word s in
    if is_letter c then c ∷ rest else (if c == 45 && starts_with_letter s then c ∷ rest else [])

-- `{{[A-Za-z]+}}` at the start of a text, as its length.
unfoldable pub letters : Text → Text
letters [] = []
letters (c ∷ s) = let rest = letters s in if is_letter c then c ∷ rest else []

abbrev pub closed_after : ℕ → Text → Bool
closed_after zero (a ∷ b ∷ rest) = a == 125 && b == 125
closed_after (suc n) (c ∷ s) = closed_after n s
closed_after _ _ = false

unfoldable pub letter_mark_at : Text → Option Text
letter_mark_at (a ∷ b ∷ rest) =
    let name = letters rest in
    if a == 123 && b == 123 && truthy name && closed_after (length name) rest
    then some name
    else none
letter_mark_at _ = none

-- `words[token.toLowerCase()]?.[wordIndex] ?? token`.
unfoldable pub replaced_word : List (Text × List Text) → ℕ → Text → Text
replaced_word words word_index token = elim (find_word words (lower_letters token)) [
  | none ↦ token
  | some translations ↦ or_else (get_elem? translations word_index) token
]

-- `source.replace(/\{\{[A-Za-z]+\}\}|[A-Za-z]+(?:-[A-Za-z]+)*/g, ...)`. Of a token that is read,
-- `skip` characters are still to be passed over; those of a mark stay as they are.
unfoldable pub replace_words : List (Text × List Text) → ℕ → (kept skip : ℕ) → Text → Text
replace_words words i kept skip [] = []
replace_words words i (suc kept) skip (c ∷ s) = c ∷ replace_words words i kept skip s
replace_words words i zero (suc skip) (c ∷ s) = replace_words words i zero skip s
replace_words words i zero zero (c ∷ s) = elim (letter_mark_at (c ∷ s)) [
  | some name ↦ c ∷ replace_words words i (suc (suc (suc (length name)))) zero s
  | none ↦ elim (is_letter c) [
    | true ↦
        let token = c ∷ dashed_word s in
        replaced_word words i token ++ replace_words words i zero (length (dashed_word s)) s
    | false ↦ c ∷ replace_words words i zero zero s
  ]
]

-- Blanks at the start and at the end, and what is between, of `/^(\s*)(.*?)(\s*)$/`: a text with a
-- line end between its blanks does not match.
pub record Padded : Type 0 where
  pub prefix : Text
  pub source : Text
  pub suffix : Text

abbrev pub is_line_end : ℕ → Bool
is_line_end c = c == 10 || c == 13 || c == 8232 || c == 8233

unfoldable pub leading : Text → Text
leading [] = []
leading (c ∷ s) = let rest = leading s in if is_space c then c ∷ rest else []

-- The blanks at the end of a text that is not all blank.
unfoldable pub trailing : Text → Text
trailing [] = []
trailing (c ∷ s) =
    let rest = trailing s in if is_space c && length rest == length s then c ∷ rest else rest

unfoldable pub padded : Text → Padded
padded text =
    let start = drop_start is_space text in
    let source = drop_end is_space start in
    if any is_line_end source
    then record { prefix = []; source = text; suffix = [] }
    else record { prefix = leading text; source = source; suffix = trailing start }

module _ (t : Tables) where
  -- `protocolProfilePhrases[locale][source] ?? phrases[locale][source]`.
  unfoldable pub exact_phrase : Locale → Text → Option Text
  exact_phrase locale source =
      or_option (find_phrase (t.protocol_profile_phrases locale) source)
        (find_phrase (t.phrases locale) source)

  unfoldable pub translate_padded : Locale → Text → Padded → Text
  translate_padded locale text p =
      let exact = or_else (exact_phrase locale p.source) [] in
      if not (includes t.static_source_texts p.source) && not (truthy exact)
      then text
      else (if truthy exact
          then p.prefix ++ exact ++ p.suffix
          else p.prefix ++ replace_words t.words (locale_index locale - 1) 0 0 p.source ++ p.suffix)

  unfoldable pub translate_static_text : Locale → Text → Text
  translate_static_text Locale.en text = text
  translate_static_text locale text = translate_padded locale text (padded text)

  pub has_explicit_static_translation : Locale → Text → Bool
  has_explicit_static_translation Locale.en text = true
  has_explicit_static_translation locale text =
      truthy (or_else (exact_phrase locale (padded text).source) [])

-- `.replace(/\{\{([A-Za-z]+)\}\}/g, (_match, key) => String(values[key] ?? ""))`.
unfoldable pub fill_marks : (Text → Option Text) → ℕ → Text → Text
fill_marks values skip [] = []
fill_marks values (suc skip) (c ∷ s) = fill_marks values skip s
fill_marks values zero (c ∷ s) = elim (letter_mark_at (c ∷ s)) [
  | none ↦ c ∷ fill_marks values zero s
  | some name ↦ or_else (values name) [] ++ fill_marks values (suc (suc (suc (length name)))) s
]

pub translate_static_template : Tables → Locale → Text → (Text → Option Text) → Text
translate_static_template t locale template values =
    fill_marks values 0 (translate_static_text t locale template)
