-- ===== src/Copy/Startup.antt =====
-- When the program starts, and what it can then translate.
use llm_evaluation.Prelude.{
  ◌≡◌, ◌↔◌, ◌⊎◌, inl, inr, refl, Bool, true, ◌||◌, ◌==◌, if◌then◌else◌, Option, some, List, [], ◌∷◌,
  length, any, or_else, or_option, truthy, Text, codes, text_eq, text_eq_iff, includes, All, arith,
  Bool-cases, ==_iff, Option-cases,
}
use llm_evaluation.Prelude.Distinct.{includes-keep}
use llm_evaluation.Catalog.{Locale}
use llm_evaluation.Copy.{Phrases, find_phrase, set_phrase, locale_index, Tables, exact_phrase}
use llm_evaluation.Copy.Load.{
  Sources, assign, translated_locales, merged_phrases, has_phrase, is_unauthored,
  hand_authored_sources, zip, update_phrases, add_hand_authored, tables_of, load_tables,
}

find_phrase-set_phrase :
    (m : Phrases) (k s v : Text)
    → find_phrase (set_phrase k v m) s ≡ (if text_eq k s then some v else find_phrase m s)
unfolding find_phrase set_phrase
find_phrase-set_phrase [] k s v = refl
find_phrase-set_phrase ((j, w) ∷ m) k s v =
    ground
      (arith, find_phrase-set_phrase m k s v, text_eq_iff j k, text_eq_iff j s, text_eq_iff k s)

has_phrase-set_phrase :
    (m : Phrases) (k s v : Text)
    → truthy v ≡ true
    → (text_eq k s ≡ true) ⊎ (has_phrase m s ≡ true)
    → has_phrase (set_phrase k v m) s ≡ true
has_phrase-set_phrase m k s v h either = ground (arith, find_phrase-set_phrase m k s v)

-- No value of a table is empty.
abbrev pub IsFull : Phrases → Type 0
IsFull es = All (λ e. truthy e.1 ≡ true) es

has_phrase-assign :
    (es m : Phrases) (s : Text)
    → IsFull es
    → has_phrase m s ≡ true
    → has_phrase (assign m es) s ≡ true
unfolding assign
has_phrase-assign [] m s full h = h
has_phrase-assign ((k, v) ∷ es) m s (here, later) h =
    has_phrase-assign es (set_phrase k v m) s later (has_phrase-set_phrase m k s v here (inr h))

zip-IsFull : (ss ts : List Text) → All (λ t. truthy t ≡ true) ts → IsFull (zip ss ts)
zip-IsFull [] ts h = tt
zip-IsFull (s ∷ ss) [] h = tt
zip-IsFull (s ∷ ss) (t ∷ ts) (here, later) = (here, zip-IsFull ss ts later)

-- Each source of a list gets a phrase from a list of translations of its length.
has_phrase-assign-zip :
    (ss ts : List Text) (m : Phrases) (s : Text)
    → length ts ≡ length ss
    → All (λ t. truthy t ≡ true) ts
    → includes ss s ≡ true
    → has_phrase (assign m (zip ss ts)) s ≡ true
unfolding assign includes
has_phrase-assign-zip [] ts m s same full h = cc
has_phrase-assign-zip (x ∷ ss) [] m s same full h = absurd (omega (arith, same))
has_phrase-assign-zip (x ∷ ss) (t ∷ ts) m s same (here, later) h = elim (Bool-cases (text_eq x s)) [
  | inl e ↦
      has_phrase-assign (zip ss ts) (set_phrase x t m) s (zip-IsFull ss ts later)
        (has_phrase-set_phrase m x s t here (inl e))
  | inr e ↦
      has_phrase-assign-zip ss ts (set_phrase x t m) s (omega (arith, same)) later (ground arith)
]

abbrev pub at_locale : Locale → Locale → Bool
at_locale locale other = locale_index locale == locale_index other

-- The text has a phrase in a locale, or will get one by the lists of these locales.
abbrev Provided : Locale → Text → List Text → List Locale → (Locale → Phrases) → Type 0
Provided locale s sources locales phrases =
    (has_phrase (phrases locale) s ≡ true)
    ⊎ ((any (λ l. at_locale l locale) locales ≡ true) × (includes sources s ≡ true))

update_phrases-Provided :
    (l locale : Locale) (s : Text) (sources ts : List Text) (locales : List Locale)
    (phrases : Locale → Phrases)
    → length ts ≡ length sources
    → All (λ t. truthy t ≡ true) ts
    → Provided locale s sources (l ∷ locales) phrases
    → Provided locale s sources locales (update_phrases l (λ m. assign m (zip sources ts)) phrases)
unfolding update_phrases
update_phrases-Provided l locale s sources ts locales phrases same full (inl h) =
    elim (Bool-cases (at_locale l locale)) [
      | inl e ↦ inl (
          rw e
            (has_phrase-assign (zip sources ts) (phrases locale) s (zip-IsFull sources ts full) h))
      | inr e ↦ inl (rw e h)
    ]
update_phrases-Provided l locale s sources ts locales phrases same full (inr (h, k)) =
    elim (Bool-cases (at_locale l locale)) [
      | inl e ↦ inl (rw e (has_phrase-assign-zip sources ts (phrases locale) s same full k))
      | inr e ↦ inr (ground arith, k)
    ]

-- The list of a locale is present and has a line for each source.
abbrev pub IsComplete : (Locale → Option (List Text)) → List Text → Locale → Type 0
IsComplete lists sources locale =
    (ts : List Text) × (lists locale ≡ some ts) × (length ts ≡ length sources)

module _ (lists : Locale → Option (List Text)) (sources : List Text) where
  add_hand_authored-cons :
      (l : Locale) (locales : List Locale) (phrases after : Locale → Phrases)
      → add_hand_authored lists sources (l ∷ locales) phrases ≡ some after
      → (ts : List Text) × (lists l ≡ some ts)
        × (length ts ≡ length sources)
        × (add_hand_authored lists sources locales
              (update_phrases l (λ m. assign m (zip sources ts)) phrases)
            ≡ some after)
  unfolding add_hand_authored
  add_hand_authored-cons l locales phrases after h = elim (Option-cases (lists l)) [
    | inl e ↦ cc (rw (e, add_hand_authored) at h)
    | inr (ts, e) ↦ elim (Bool-cases (length ts == length sources)) [
      | inl same ↦ (ts, e, (==_iff (length ts) (length sources)).0 same, ground arith)
      | inr other ↦ absurd (ground arith)
    ]
  ]

  add_hand_authored-IsComplete :
      (locales : List Locale) (phrases after : Locale → Phrases)
      → add_hand_authored lists sources locales phrases ≡ some after
      → All (IsComplete lists sources) locales
  unfolding add_hand_authored
  add_hand_authored-IsComplete [] phrases after h = tt
  add_hand_authored-IsComplete (l ∷ locales) phrases after h =
      let (ts, given, same, rest) = add_hand_authored-cons l locales phrases after h in
      (
        (ts, given, same),
        add_hand_authored-IsComplete locales
            (update_phrases l (λ m. assign m (zip sources ts)) phrases) after rest,
      )

  add_hand_authored-some :
      (locales : List Locale) (phrases : Locale → Phrases)
      → All (IsComplete lists sources) locales
      → (after : Locale → Phrases) × (add_hand_authored lists sources locales phrases ≡ some after)
  unfolding add_hand_authored
  add_hand_authored-some [] phrases h = (phrases, refl)
  add_hand_authored-some (l ∷ locales) phrases ((ts, given, same), h) =
      let (after, e) =
        add_hand_authored-some locales (update_phrases l (λ m. assign m (zip sources ts)) phrases)
          h in
      (after, ground (arith, given, same, e))

  add_hand_authored-has :
      (locales : List Locale) (phrases after : Locale → Phrases) (locale : Locale) (s : Text)
      → ((l : Locale) (ts : List Text) → lists l ≡ some ts → All (λ t. truthy t ≡ true) ts)
      → add_hand_authored lists sources locales phrases ≡ some after
      → Provided locale s sources locales phrases
      → has_phrase (after locale) s ≡ true
  unfolding add_hand_authored
  add_hand_authored-has [] phrases after locale s full h (inl k) =
      let kept : phrases ≡ after = cc in rw (← kept) k
  add_hand_authored-has [] phrases after locale s full h (inr (k, k')) = cc
  add_hand_authored-has (l ∷ locales) phrases after locale s full h p =
      let (ts, given, same, rest) = add_hand_authored-cons l locales phrases after h in
      add_hand_authored-has locales (update_phrases l (λ m. assign m (zip sources ts)) phrases)
        after locale s full rest
        (update_phrases-Provided l locale s sources ts locales phrases same (full l ts given) p)

-- A text has a phrase in each locale but English or in none.
abbrev pub IsUniform : Sources → Text → Type 0
IsUniform c source =
    (is_unauthored c source ≡ true)
    ⊎ ((l : Locale)
        → any (λ j. at_locale j l) translated_locales ≡ true
        → (has_phrase (c.protocol_profile_phrases l) source
            || has_phrase (merged_phrases c l) source)
          ≡ true)

add_all : Sources → Option (Locale → Phrases)
add_all c =
    add_hand_authored c.hand_authored_translations (hand_authored_sources c) translated_locales
      (merged_phrases c)

-- The program starts exactly when each locale but English has a list with a line for each text
-- without a phrase.
pub load_tables_iff :
    (c : Sources)
    → ((t : Tables) × (load_tables c ≡ some t))
      ↔ All (IsComplete c.hand_authored_translations (hand_authored_sources c)) translated_locales
unfolding load_tables add_all
load_tables_iff c = (
  λ (t, e). elim (Option-cases (add_all c)) [
    | inl stop ↦ cc (rw (stop, load_tables) at e)
    | inr (after, go) ↦
        add_hand_authored-IsComplete c.hand_authored_translations (hand_authored_sources c)
          translated_locales (merged_phrases c) after go
  ],
  λ complete.
      let (after, go) =
        add_hand_authored-some c.hand_authored_translations (hand_authored_sources c)
          translated_locales (merged_phrases c) complete in
      (tables_of c after, rw (go, load_tables) refl),
)

find_phrase-IsFull :
    (m : Phrases) (s v : Text) → IsFull m → find_phrase m s ≡ some v → truthy v ≡ true
unfolding find_phrase
find_phrase-IsFull [] s v full h = cc
find_phrase-IsFull ((k, w) ∷ m) s v (here, later) h =
    ground (arith, here, find_phrase-IsFull m s v later)

-- A text with a phrase in one of two tables has one in the first, or else in the second.
or_option-has :
    (m n : Phrases) (s : Text)
    → IsFull m
    → (has_phrase m s ≡ true) ⊎ (has_phrase n s ≡ true)
    → truthy (or_else (or_option (find_phrase m s) (find_phrase n s)) []) ≡ true
or_option-has m n s full either = elim (Option-cases (find_phrase m s)) [
  | inl e ↦ rw e (elim either [ inl k ↦ cc (rw e at k) | inr k ↦ k ])
  | inr (v, e) ↦ rw e (find_phrase-IsFull m s v full e)
]

update_phrases-has_phrase :
    (after : Locale → Phrases) (l : Locale) (s k v : Text)
    → truthy v ≡ true
    → has_phrase (after l) s ≡ true
    → has_phrase (update_phrases Locale.ja (set_phrase k v) after l) s ≡ true
unfolding update_phrases
update_phrases-has_phrase after l s k v full h = elim (Bool-cases (at_locale Locale.ja l)) [
  | inl e ↦ rw e (has_phrase-set_phrase (after l) k s v full (inr h))
  | inr e ↦ rw e h
]

-- Once the program has started, each static text that had a phrase in all locales but English or in
-- none of them, has one in each locale but English, if no line of a list and no phrase of a protocol
-- is empty.
pub load_tables-exact_phrase :
    (c : Sources) (t : Tables) (l : Locale) (source : Text)
    → load_tables c ≡ some t
    → ((j : Locale) (ts : List Text)
        → c.hand_authored_translations j ≡ some ts
        → All (λ s. truthy s ≡ true) ts)
    → IsFull (c.protocol_profile_phrases l)
    → any (λ j. at_locale j l) translated_locales ≡ true
    → includes c.static_source_texts source ≡ true
    → IsUniform c source
    → truthy (or_else (exact_phrase t l source) []) ≡ true
unfolding load_tables exact_phrase add_all hand_authored_sources
load_tables-exact_phrase c t l source h full proto here known uniform =
    elim (Option-cases (add_all c)) [
      | inl stop ↦ cc (rw (stop, load_tables) at h)
      | inr (after, go) ↦
          let made : some (tables_of c after) ≡ some t = rw (go, load_tables) at h in
          let same : tables_of c after ≡ t = cc in
          let added =
            add_hand_authored-has c.hand_authored_translations (hand_authored_sources c)
              translated_locales (merged_phrases c) after l source full go in
          let last = λ (h : has_phrase (after l) source ≡ true).
            update_phrases-has_phrase after l source (codes "My local model") (codes "ローカル モデル")
              refl h in
          let either : (has_phrase (c.protocol_profile_phrases l) source ≡ true)
              ⊎ (has_phrase ((tables_of c after).phrases l) source ≡ true) =
            elim uniform [
              | inl none_yet ↦ inr (
                  last (
                    added (
                      inr (
                        here,
                        cc (
                          includes-keep (is_unauthored c) c.static_source_texts source,
                          none_yet,
                          known,
                        ),
                      ))))
              | inr each ↦ elim (Bool-cases (has_phrase (c.protocol_profile_phrases l) source)) [
                | inl e ↦ inl e
                | inr e ↦ let own = each l here in inr (last (added (inl (ground arith))))
              ]
            ] in
          rw (← same) (
            or_option-has (c.protocol_profile_phrases l) ((tables_of c after).phrases l) source
              proto either)
    ]
