-- ===== src/DatasetRun/Asked.antt =====
-- What the effect of the launcher depends on is compared field by field.
use llm_evaluation.Prelude.{
  ℕ, or_else, get_elem?, arith, find, opt_eq, text_eq, text_eq_iff, ◌≡◌, refl, sym, ap, ◌∙◌, Bool,
  true, false, ◌==◌, ==_iff, Option, none, some, [], ◌∷◌, Text, text_eq_refl, opt_eq_iff, and-split,
}
use llm_evaluation.Catalog.{Locale}
use llm_evaluation.Copy.{locale_index}
use llm_evaluation.DatasetRun.Launch.{
  Deps, Launch, bool_eq, declared_eq, deps_eq, deps_of, declared_of,
}

bool_eq_refl : (b : Bool) → bool_eq b b ≡ true
unfolding bool_eq
bool_eq_refl true = refl
bool_eq_refl false = refl

declared_eq_refl : (d : Option (Option Text × Option Text)) → declared_eq d d ≡ true
unfolding declared_eq
declared_eq_refl none = refl
declared_eq_refl (some (i, r)) = rw ((opt_eq_iff i i).1 refl, (opt_eq_iff r r).1 refl)

pub deps_eq_refl : (d : Deps) → deps_eq d d ≡ true
unfolding deps_eq
deps_eq_refl d =
    let numbers = (==_iff d.schema_request d.schema_request).1 refl in
    let places = (==_iff (locale_index d.locale) (locale_index d.locale)).1 refl in
    rw (
      text_eq_refl d.dataset_version_id,
      numbers,
      bool_eq_refl d.datasets_loaded,
      declared_eq_refl d.declared,
      places,
    )

bool_eq-eq : (a b : Bool) → bool_eq a b ≡ true → a ≡ b
unfolding bool_eq
bool_eq-eq true b h = sym h
bool_eq-eq false true h = cc
bool_eq-eq false false h = refl

declared_eq-eq : (a b : Option (Option Text × Option Text)) → declared_eq a b ≡ true → a ≡ b
unfolding declared_eq
declared_eq-eq none none h = refl
declared_eq-eq none (some b) h = cc
declared_eq-eq (some a) none h = cc
declared_eq-eq (some (i, r)) (some (j, q)) h =
    let (inputs, references) = and-split (opt_eq i j) (opt_eq r q) h in
    let same_input = (opt_eq_iff i j).0 inputs in
    let same_reference = (opt_eq_iff r q).0 references in rw (same_input, same_reference)

-- A locale is found by its place.
locale_at : ℕ → Locale
locale_at n =
    or_else
      (get_elem?
        (Locale.en ∷ Locale.zh_cn ∷ Locale.fr ∷ Locale.de ∷ Locale.ru ∷ Locale.ja ∷ Locale.ko ∷ [])
        n)
      Locale.ms

locale_at-locale_index : (l : Locale) → locale_at (locale_index l) ≡ l
unfolding locale_at
locale_at-locale_index Locale.en = refl
locale_at-locale_index Locale.zh_cn = refl
locale_at-locale_index Locale.fr = refl
locale_at-locale_index Locale.de = refl
locale_at-locale_index Locale.ru = refl
locale_at-locale_index Locale.ja = refl
locale_at-locale_index Locale.ko = refl
locale_at-locale_index Locale.ms = refl

-- The state has asked for what it now has: the dataset, the list with its declaration, the retry and
-- the locale.
pub record HasAsked {N P : Type 0} (s : Launch N P) : Type 0 where
  pub dataset : s.deps.dataset_version_id ≡ s.form.dataset_version_id
  pub retry : s.deps.schema_request ≡ s.schema_request
  pub loaded : s.deps.datasets_loaded ≡ s.datasets_loaded
  pub declared :
      s.deps.declared ≡ declared_of (find (λ d. text_eq d.id s.form.dataset_version_id) s.datasets)
  pub locale : s.deps.locale ≡ s.locale

pub deps_eq-HasAsked :
    {N P : Type 0} (s : Launch N P) → deps_eq (deps_of s) s.deps ≡ true → HasAsked s
unfolding deps_eq deps_of
deps_eq-HasAsked s h =
    let now = deps_of s in
    let ids = text_eq now.dataset_version_id s.deps.dataset_version_id in
    let retries = now.schema_request == s.deps.schema_request in
    let loads = bool_eq now.datasets_loaded s.deps.datasets_loaded in
    let declares = declared_eq now.declared s.deps.declared in
    let places = locale_index now.locale == locale_index s.deps.locale in
    let each : (ids ≡ true)
        × (retries ≡ true)
        × (loads ≡ true)
        × (declares ≡ true)
        × (places ≡ true) =
      ground (arith, h) in
    let place = (==_iff (locale_index now.locale) (locale_index s.deps.locale)).0 each.4 in
    record {
      dataset = sym ((text_eq_iff now.dataset_version_id s.deps.dataset_version_id).0 each.0);
      retry = sym ((==_iff now.schema_request s.deps.schema_request).0 each.1);
      loaded = sym (bool_eq-eq now.datasets_loaded s.deps.datasets_loaded each.2);
      declared = sym (declared_eq-eq now.declared s.deps.declared each.3);
      locale =
          sym (locale_at-locale_index s.deps.locale)
          ∙ ap locale_at (sym place)
          ∙ locale_at-locale_index now.locale;
    }
