-- ===== src/StaticCopy/Refines.antt =====
-- The texts of the document refine the view of them, by a relation that each event keeps.
use llm_evaluation.Prelude.{
  ◌≡◌, ◌⊎◌, inl, inr, refl, sym, true, false, Option, none, some, List, [], ◌∷◌, Text, text_eq,
  text_eq_refl, text_eq_iff, includes, includes-mem, All, Bool-cases,
}
use llm_evaluation.Catalog.{Locale}
use llm_evaluation.Copy.{Tables}
use llm_evaluation.StaticCopy.{Parent, Entry, source_of, translated, rewrite, is_kept, pass_text}
use llm_evaluation.StaticCopy.Shows.{
  Event, write, observed, relocated, State, View, start, view_of, step, run, shows, view_step,
  view_run, IsApart, IsListed,
}

module _ (t : Tables) (to_lower_case : Text → Text) (parent : Parent) (written : List Text) where
  abbrev Remembers : Text → Text → Option Entry → Type 0
  Remembers now last none = now ≡ last
  Remembers now last (some e) =
      (includes written e.source ≡ true)
      × (is_kept to_lower_case parent e.source ≡ false)
      × ((locale : Locale) × (e.last ≡ translated t locale e.source))
      × ((now ≡ last) ⊎ ((now ≡ e.last) × (e.source ≡ last)))

  record IsRelated (s : State) (v : View) : Type 0 where
    same_locale : s.locale ≡ v.locale
    same_parent : s.node.parent ≡ parent
    same_text : s.node.shown.text ≡ v.shown
    known : includes written v.written ≡ true
    remembers : Remembers s.node.shown.text v.written s.node.shown.entry

  module _ (apart : All (IsApart t to_lower_case parent written) written) where
    translation_of :
        (source : Text) (l : Locale)
        → is_kept to_lower_case parent source ≡ false
        → includes written source ≡ true
        → (is_kept to_lower_case parent (translated t l source) ≡ false)
          × All (λ other. other ≡ translated t l source → other ≡ source) written
    translation_of source l free listed =
        elim (includes-mem (IsApart t to_lower_case parent written) written source listed apart) [
          | inl kept ↦ absurd cc
          | inr f ↦ f l
        ]

    not_confused :
        (source last : Text) (l : Locale)
        → is_kept to_lower_case parent source ≡ false
        → includes written source ≡ true
        → includes written last ≡ true
        → last ≡ translated t l source
        → source ≡ last
    not_confused source last l free listed known said =
        let (_, others) = translation_of source l free listed in
        sym (
          includes-mem (λ other. other ≡ translated t l source → other ≡ source) written last known
            others said)

    -- The text that a pass takes for the source is the one last written.
    source_of-written :
        (now last : Text) (entry : Option Entry)
        → includes written last ≡ true
        → Remembers now last entry
        → is_kept to_lower_case parent now ≡ false
        → source_of entry now ≡ last
    unfolding source_of
    source_of-written now last none known h k = h
    source_of-written now last (some e) known (listed, free, (l, made), inl raw) k =
        elim (Bool-cases (text_eq now e.last)) [
          | inl m ↦
              let now_made = (text_eq_iff now e.last).0 m in
              let said : last ≡ translated t l e.source = cc in
              rw m (not_confused e.source last l free listed known said)
          | inr other ↦ rw other raw
        ]
    source_of-written now last (some e) known (listed, free, (l, made), inr (shown, source)) k =
        rw (shown, text_eq_refl e.last, source)

    -- A text that stays as it is, is the one last written.
    kept-written :
        (now last : Text) (entry : Option Entry)
        → includes written last ≡ true
        → Remembers now last entry
        → is_kept to_lower_case parent now ≡ true
        → now ≡ last
    kept-written now last none known h k = h
    kept-written now last (some e) known (listed, free, (l, made), inl raw) k = raw
    kept-written now last (some e) known (listed, free, (l, made), inr (shown, source)) k =
        let (still, _) = translation_of e.source l free listed in
        absurd (let now_made : now ≡ translated t l e.source = cc in cc (rw now_made at k))

    written-free :
        (now last : Text) (entry : Option Entry)
        → Remembers now last entry
        → is_kept to_lower_case parent now ≡ false
        → is_kept to_lower_case parent last ≡ false
    written-free now last none h k = rw (← h) k
    written-free now last (some e) (listed, free, made, inl raw) k = rw (← raw) k
    written-free now last (some e) (listed, free, made, inr (shown, source)) k = rw (← source) free

    pass_text-IsRelated :
        (s : State) (v : View) (locale : Locale)
        → IsRelated s v
        → IsRelated
            (record { locale = locale; node = pass_text to_lower_case t locale s.node })
            (record v { locale = locale; shown = shows t to_lower_case parent locale v.written })
    unfolding pass_text rewrite shows
    pass_text-IsRelated s v locale h =
        let now = s.node.shown.text in
        let entry = s.node.shown.entry in
        let new = translated t locale v.written in
        elim (Bool-cases (is_kept to_lower_case parent now)) [
          | inl k ↦
              let same : pass_text to_lower_case t locale s.node ≡ s.node = rw (h.same_parent, k) in
              let raw = kept-written now v.written entry h.known h.remembers k in
              let still : is_kept to_lower_case parent v.written ≡ true = rw (← raw) k in
              record {
                same_locale = refl;
                same_parent = rw same h.same_parent;
                same_text = rw (same, still) raw;
                known = h.known;
                remembers = rw same h.remembers;
              }
          | inr k ↦
              let source = source_of-written now v.written entry h.known h.remembers k in
              let free = written-free now v.written entry h.remembers k in
              let same : pass_text to_lower_case t locale s.node ≡ record s.node {
                shown = record {
                  text = new;
                  entry = some (record { source = v.written; last = new });
                };
              } =
                rw (h.same_parent, k, source) in
              record {
                same_locale = refl;
                same_parent = rw same h.same_parent;
                same_text = rw (same, free);
                known = h.known;
                remembers = rw same (h.known, free, (locale, refl), inr (refl, refl));
              }
        ]

    write-Remembers :
        (now last text : Text) (entry : Option Entry)
        → Remembers now last entry
        → Remembers text text entry
    write-Remembers now last text none h = refl
    write-Remembers now last text (some e) (listed, free, made, either) =
        (listed, free, made, inl refl)

    step-IsRelated :
        (e : Event) (s : State) (v : View)
        → IsListed written e
        → IsRelated s v
        → IsRelated (step t to_lower_case e s) (view_step t to_lower_case parent e v)
    unfolding step view_step
    step-IsRelated (write text) s v listed h = record {
      same_locale = h.same_locale;
      same_parent = h.same_parent;
      same_text = refl;
      known = listed;
      remembers = write-Remembers s.node.shown.text v.written text s.node.shown.entry h.remembers;
    }
    step-IsRelated observed s v listed h =
        let r = pass_text-IsRelated s v s.locale h in
        record {
          same_locale = h.same_locale;
          same_parent = r.same_parent;
          same_text = rw (← h.same_locale) r.same_text;
          known = r.known;
          remembers = r.remembers;
        }
    step-IsRelated (relocated locale) s v listed h = pass_text-IsRelated s v locale h

    run-IsRelated :
        (es : List Event) (s : State) (v : View)
        → All (IsListed written) es
        → IsRelated s v
        → IsRelated (run t to_lower_case es s) (view_run t to_lower_case parent es v)
    unfolding run view_run
    run-IsRelated [] s v listed h = h
    run-IsRelated (e ∷ es) s v (here, later) h =
        run-IsRelated es (step t to_lower_case e s) (view_step t to_lower_case parent e v) later
          (step-IsRelated e s v here h)

    -- Through any sequence of writes, observer calls and changes of the locale, a text of the
    -- document shows what the view shows: the text last written as it is, and from the next pass on
    -- its translation into the locale of that pass, not the translation of a translation; texts that
    -- stay as they are stay. The texts that the interface writes are of a list in which no text is
    -- translated into another of the list or into one that stays as it is.
    pub run-view_run :
        (es : List Event) (locale : Locale) (first : Text)
        → includes written first ≡ true
        → All (IsListed written) es
        → (run t to_lower_case es (start parent locale first)).node.shown.text
          ≡ (view_run t to_lower_case parent es (view_of locale first)).shown
    run-view_run es locale first known listed =
        let s = start parent locale first in
        let v = view_of locale first in
        let related : IsRelated s v = record {
          same_locale = refl;
          same_parent = refl;
          same_text = refl;
          known = known;
          remembers = refl;
        } in
        (run-IsRelated es s v listed related).same_text
