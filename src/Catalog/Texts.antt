-- ===== src/Catalog/Texts.antt =====
-- The catalogues agree on the marks of their texts, and a locale that is stored is read back.
use llm_evaluation.Prelude.{
  ◌≡◌, ◌↔◌, ◌⊎◌, inl, inr, refl, sym, ap, ◌∙◌, Bool, true, false, ◌&&◌, Option, none, some, List,
  [], ◌∷◌, Text, codes, text_eq, text_eq_iff, includes, map, all, All, truthy, arith, Bool-cases,
  and-split,
}
use llm_evaluation.Catalog.Keys.{TranslationKey, translation_keys}
use llm_evaluation.Catalog.{Locale, locale_list, locale_id, catalogs, is_locale, resolve_locale}
use llm_evaluation.Catalog.English
use llm_evaluation.Catalog.Chinese
use llm_evaluation.Catalog.French
use llm_evaluation.Catalog.German
use llm_evaluation.Catalog.Russian
use llm_evaluation.Catalog.Japanese
use llm_evaluation.Catalog.Korean
use llm_evaluation.Catalog.Malay
use llm_evaluation.Catalog.Interpolate.{word, closes, mark_at, start_locale, set_locale}

-- The names of the marks of a text, in their order.
unfoldable pub marks : Text → List Text
marks [] = []
marks (c ∷ s) = elim (mark_at (c ∷ s)) [ none ↦ marks s | some name ↦ name ∷ marks s ]

unfoldable same_texts : List Text → List Text → Bool
same_texts [] [] = true
same_texts (s ∷ ss) (t ∷ ts) = text_eq s t && same_texts ss ts
same_texts _ _ = false

same_texts-eq : (ss ts : List Text) → same_texts ss ts ≡ true → ss ≡ ts
unfolding same_texts
same_texts-eq [] [] h = refl
same_texts-eq [] (t ∷ ts) h = cc
same_texts-eq (s ∷ ss) [] h = cc
same_texts-eq (s ∷ ss) (t ∷ ts) h =
    let (e, k) = and-split (text_eq s t) (same_texts ss ts) h in
    cc ((text_eq_iff s t).0 e, same_texts-eq ss ts k)

-- A text that is not empty and has the marks of the English one.
abbrev pub IsTranslation : Locale → TranslationKey → Type 0
IsTranslation l k =
    (truthy (codes (catalogs l k)) ≡ true)
    × (marks (codes (catalogs l k)) ≡ marks (codes (catalogs Locale.en k)))

unfoldable is_translation : Locale → TranslationKey → Bool
is_translation l k =
    truthy (codes (catalogs l k))
    && same_texts (marks (codes (catalogs l k))) (marks (codes (catalogs Locale.en k)))

All-all :
    {A : Type 0} (P : A → Type 0) (test : A → Bool)
    → ((a : A) → test a ≡ true → P a)
    → (xs : List A) → all test xs ≡ true
    → All P xs
All-all P test sound [] h = tt
All-all P test sound (x ∷ xs) h =
    let (e, k) = and-split (test x) (all test xs) h in (sound x e, All-all P test sound xs k)

all_translations : all (λ l. all (is_translation l) translation_keys) locale_list ≡ true
unfolding is_translation catalogs English.en Chinese.zh_cn French.fr German.de Russian.ru
    Japanese.ja Korean.ko Malay.ms marks mark_at word closes same_texts text_eq
all_translations = refl

-- Each text of each catalogue is not empty, and has the marks of the English text in their order.
pub catalogs-IsTranslation : All (λ l. All (IsTranslation l) translation_keys) locale_list
unfolding is_translation
catalogs-IsTranslation =
    All-all (λ l. All (IsTranslation l) translation_keys)
      (λ l. all (is_translation l) translation_keys)
      (λ l.
        All-all (IsTranslation l) (is_translation l)
          (λ k h.
            let (full, same) = and-split (truthy (codes (catalogs l k))) _ h in
            (
              full,
              same_texts-eq (marks (codes (catalogs l k))) (marks (codes (catalogs Locale.en k)))
                  same,
            ))
          translation_keys)
      locale_list all_translations

-- A locale is what its own string stands for.
resolve_locale-locale_id : (l : Locale) → resolve_locale (some (locale_id l)) ≡ l
unfolding resolve_locale is_locale includes text_eq
resolve_locale-locale_id Locale.en = refl
resolve_locale-locale_id Locale.zh_cn = refl
resolve_locale-locale_id Locale.fr = refl
resolve_locale-locale_id Locale.de = refl
resolve_locale-locale_id Locale.ru = refl
resolve_locale-locale_id Locale.ja = refl
resolve_locale-locale_id Locale.ko = refl
resolve_locale-locale_id Locale.ms = refl

is_locale-locale_id : (l : Locale) → is_locale (some (locale_id l)) ≡ true
unfolding is_locale includes text_eq
is_locale-locale_id Locale.en = refl
is_locale-locale_id Locale.zh_cn = refl
is_locale-locale_id Locale.fr = refl
is_locale-locale_id Locale.de = refl
is_locale-locale_id Locale.ru = refl
is_locale-locale_id Locale.ja = refl
is_locale-locale_id Locale.ko = refl
is_locale-locale_id Locale.ms = refl

mem-locale_id :
    (ls : List Locale) (value : Text)
    → includes (map locale_id ls) value ≡ true
    → (l : Locale) × (locale_id l ≡ value)
unfolding includes
mem-locale_id [] value h = cc
mem-locale_id (l ∷ ls) value h = elim (Bool-cases (text_eq (locale_id l) value)) [
  | inl e ↦ (l, (text_eq_iff (locale_id l) value).0 e)
  | inr e ↦ mem-locale_id ls value (ground arith)
]

-- A string is a locale exactly when it is the string of one.
is_locale_iff :
    (value : Text) → (is_locale (some value) ≡ true) ↔ ((l : Locale) × (locale_id l ≡ value))
unfolding is_locale
is_locale_iff value = (
  mem-locale_id locale_list value,
  λ (l, e). ap (λ v. is_locale (some v)) (sym e) ∙ is_locale-locale_id l,
)

resolve_locale-other :
    (stored : Option Text) → is_locale stored ≡ false → resolve_locale stored ≡ Locale.en
unfolding resolve_locale
resolve_locale-other none h = refl
resolve_locale-other (some value) h = rw h refl

is_locale-none : is_locale none ≡ false
unfolding is_locale
is_locale-none = refl

-- A stored value gives the locale whose string it is, and English exactly when it is the string of
-- English or of no locale.
pub start_locale_iff :
    (stored : Option Text) (l : Locale)
    → (start_locale stored ≡ l)
      ↔ ((stored ≡ some (locale_id l)) ⊎ ((l ≡ Locale.en) × (is_locale stored ≡ false)))
unfolding start_locale
start_locale_iff none l =
    let other = resolve_locale-other none is_locale-none in
    (λ e. inr (cc, is_locale-none), λ h. elim h [ inl e ↦ cc | inr (e, k) ↦ cc ])
start_locale_iff (some value) l = elim (Bool-cases (is_locale (some value))) [
  | inl e ↦
      let (j, id) = (is_locale_iff value).0 e in
      let here = resolve_locale-locale_id j in
      let there = resolve_locale-locale_id l in
      (λ h. inl cc, λ h. elim h [ inl same ↦ cc | inr (x, k) ↦ cc ])
  | inr e ↦
      let other = resolve_locale-other (some value) e in
      let known = is_locale-locale_id l in
      (λ h. inr (cc, e), λ h. elim h [ inl same ↦ cc | inr (x, k) ↦ cc ])
]

-- The locale that is set is the locale asked for, and is the one at the next start.
pub start_locale-set_locale :
    (l : Locale)
    → let (locale, stored) = set_locale l in (locale ≡ l) × (start_locale (some stored) ≡ l)
unfolding set_locale start_locale
start_locale-set_locale l = rw (resolve_locale-locale_id l) (refl, resolve_locale-locale_id l)
