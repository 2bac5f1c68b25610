-- ===== src/StaticCopy/Observer.antt =====
-- The observer of StaticCopy watches what its own passes write, and stops all the same.
use llm_evaluation.Prelude.{
  ℕ, suc, ◌≡◌, inl, inr, refl, Bool, false, Option, none, some, List, [], ◌∷◌, map, any, truthy,
  Text, text_eq_refl, Bool-cases,
}
use llm_evaluation.Catalog.{Locale}
use llm_evaluation.Copy.{Tables}
use llm_evaluation.StaticCopy.{
  Entry, Shown, TextNode, Element, Document, source_of, translated, rewrite, pass_value,
  writes_value, pass_element, writes_element, is_kept, pass_text, writes_text, pass, writes,
  observe,
}

map_settles :
    {A : Type 0} (f : A → A) (changes : A → Bool)
    → ((a : A) → (f (f a) ≡ f a) × (changes (f a) ≡ false))
    → (nodes : List A) → (map f (map f nodes) ≡ map f nodes) × (any changes (map f nodes) ≡ false)
map_settles f changes h [] = (refl, refl)
map_settles f changes h (a ∷ nodes) =
    let (same, still) = map_settles f changes h nodes in (rw (same, (h a).0), rw ((h a).1, still))

module _ (t : Tables) (locale : Locale) where
  rewrite_idem : (s : Shown) → rewrite t locale (rewrite t locale s) ≡ rewrite t locale s
  unfolding rewrite source_of
  rewrite_idem s = rw (text_eq_refl (translated t locale (source_of s.entry s.text)))

  pass_value_idem :
      (value : Option Text) (entry : Option Entry)
      → let a = pass_value t locale value entry in
        (pass_value t locale a.value a.entry ≡ a) × (writes_value t locale a.value a.entry ≡ false)
  unfolding pass_value writes_value
  pass_value_idem none entry = (refl, refl)
  pass_value_idem (some current) entry = elim (Bool-cases (truthy current)) [
    | inl h ↦
        let s = rewrite t locale (record { text = current; entry = entry }) in
        let p : pass_value t locale (some current) entry
            ≡ record { value = some s.text; entry = s.entry } =
          rw h in
        let again = rewrite_idem (record { text = current; entry = entry }) in
        let same = text_eq_refl s.text in
        rw p (elim (Bool-cases (truthy s.text)) [
          | inl k ↦ (rw (k, again), rw (k, again, same))
          | inr k ↦ (rw k, rw k)
        ])
    | inr h ↦
        let p : pass_value t locale (some current) entry
            ≡ record { value = some current; entry = entry } =
          rw h in
        rw p (rw h, rw h)
  ]

  pass_element_idem :
      (e : Element)
      → (pass_element t locale (pass_element t locale e) ≡ pass_element t locale e)
        × (writes_element t locale (pass_element t locale e) ≡ false)
  unfolding pass_element writes_element
  pass_element_idem e =
      let a = pass_value_idem e.placeholder.value e.placeholder.entry in
      let b = pass_value_idem e.aria_label.value e.aria_label.entry in
      let c = pass_value_idem e.title.value e.title.entry in
      elim (Bool-cases e.inside_protected) [
        | inl h ↦ let p : pass_element t locale e ≡ e = rw h in rw p (p, rw h)
        | inr h ↦
            let p : pass_element t locale e ≡ record e {
              placeholder = pass_value t locale e.placeholder.value e.placeholder.entry;
              aria_label = pass_value t locale e.aria_label.value e.aria_label.entry;
              title = pass_value t locale e.title.value e.title.entry;
            } =
              rw h in
            rw p (rw (h, a.0, b.0, c.0), rw (h, a.1, b.1, c.1))
      ]

  module _ (to_lower_case : Text → Text) where
    pass_text_idem :
        (n : TextNode)
        → (pass_text to_lower_case t locale (pass_text to_lower_case t locale n)
            ≡ pass_text to_lower_case t locale n)
          × (writes_text to_lower_case t locale (pass_text to_lower_case t locale n) ≡ false)
    unfolding pass_text writes_text
    pass_text_idem n = elim (Bool-cases (is_kept to_lower_case n.parent n.shown.text)) [
      | inl h ↦ let p : pass_text to_lower_case t locale n ≡ n = rw h in rw p (p, rw h)
      | inr h ↦
          let s = rewrite t locale n.shown in
          let again = rewrite_idem n.shown in
          let same = text_eq_refl s.text in
          let p : pass_text to_lower_case t locale n ≡ record n { shown = s } = rw h in
          rw p (elim (Bool-cases (is_kept to_lower_case n.parent s.text)) [
            | inl k ↦ (rw k, rw k)
            | inr k ↦ (rw (k, again), rw (k, again, same))
          ])
    ]

    -- A second pass writes nothing and keeps the document.
    pub pass_idem :
        (d : Document)
        → (pass to_lower_case t locale (pass to_lower_case t locale d)
            ≡ pass to_lower_case t locale d)
          × (writes to_lower_case t locale (pass to_lower_case t locale d) ≡ false)
    unfolding pass writes
    pass_idem d =
        let texts =
          map_settles (pass_text to_lower_case t locale) (writes_text to_lower_case t locale)
            pass_text_idem d.texts in
        let elements =
          map_settles (pass_element t locale) (writes_element t locale) pass_element_idem
            d.elements in
        (rw (texts.0, elements.0), rw (texts.1, elements.1))

    -- Whatever the document holds, the observer is called twice at most, though it watches what it
    -- writes itself: two calls settle the document, and it is then as one pass leaves it.
    pub observe-pass :
        (d : Document) (more : ℕ)
        → observe to_lower_case t locale (suc (suc more)) d ≡ some (pass to_lower_case t locale d)
    unfolding observe
    observe-pass d more =
        let (same, still) = pass_idem d in
        elim (Bool-cases (writes to_lower_case t locale d)) [
          | inl h ↦ rw (h, still, same)
          | inr h ↦ rw h
        ]
