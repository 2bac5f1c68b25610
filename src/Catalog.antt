-- ===== src/Catalog.antt =====
-- frontend/src/i18n/catalog.ts: the locales, their names and their catalogues, and the choice of a
-- locale from a stored value. The texts of a locale are in the child module of its language.
pub mod Keys
mod English
mod Chinese
mod French
mod German
mod Russian
mod Japanese
mod Korean
mod Malay
pub mod Interpolate
pub mod Templates
pub mod Texts
mod Examples
use llm_evaluation.Prelude.{
  Bool, true, false, Option, none, some, List, [], ◌∷◌, Text, String, codes, text_eq, includes, map,
  find, or_else, truthy, if◌then◌else◌,
}
use Keys.{TranslationKey}
use English
use Chinese
use French
use German
use Russian
use Japanese
use Korean
use Malay

pub data Locale : Type 0 where
  en zh_cn fr de ru ja ko ms : Locale

abbrev pub locale_list : List Locale
locale_list =
    Locale.en ∷ Locale.zh_cn ∷ Locale.fr ∷ Locale.de ∷ Locale.ru ∷ Locale.ja ∷ Locale.ko ∷ Locale.ms
    ∷ []

abbrev pub locale_name : Locale → Text
locale_name Locale.en = codes "English"
locale_name Locale.zh_cn = codes "简体中文"
locale_name Locale.fr = codes "Français"
locale_name Locale.de = codes "Deutsch"
locale_name Locale.ru = codes "Русский"
locale_name Locale.ja = codes "日本語"
locale_name Locale.ko = codes "한국어"
locale_name Locale.ms = codes "Bahasa Melayu"

-- The string that stands for a locale.
abbrev pub locale_id : Locale → Text
locale_id Locale.en = codes "en"
locale_id Locale.zh_cn = codes "zh-CN"
locale_id Locale.fr = codes "fr"
locale_id Locale.de = codes "de"
locale_id Locale.ru = codes "ru"
locale_id Locale.ja = codes "ja"
locale_id Locale.ko = codes "ko"
locale_id Locale.ms = codes "ms"

unfoldable pub catalogs : Locale → TranslationKey → String
catalogs Locale.en = English.en
catalogs Locale.zh_cn = Chinese.zh_cn
catalogs Locale.fr = French.fr
catalogs Locale.de = German.de
catalogs Locale.ru = Russian.ru
catalogs Locale.ja = Japanese.ja
catalogs Locale.ko = Korean.ko
catalogs Locale.ms = Malay.ms

unfoldable pub is_locale : Option Text → Bool
is_locale none = false
is_locale (some value) = includes (map locale_id locale_list) value

-- A string as the locale that it stands for (`value is Locale`).
abbrev pub as_locale : Text → Option Locale
as_locale value = find (λ l. text_eq (locale_id l) value) locale_list

unfoldable pub resolve_locale : Option Text → Locale
resolve_locale none = Locale.en
resolve_locale (some value) =
    if is_locale (some value) then or_else (as_locale value) Locale.en else Locale.en
