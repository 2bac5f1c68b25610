-- ===== src/Scatter/Selection.antt =====
-- The boxes of the runs, where `none` stands for all runs.
use llm_evaluation.Prelude.{
  ◌≡◌, inl, inr, refl, sym, Bool, true, false, not, ◌||◌, ◌==◌, if◌then◌else◌, Option, none, some,
  List, [], ◌∷◌, ◌++◌, keep, length, or_else, Text, text_eq, text_eq_iff, includes, arith,
  Bool-cases, ==_iff,
}
use llm_evaluation.Prelude.Distinct.{
  distinct, includes-keep, includes-distinct, IsDistinct, ◌⊆◌, keep-IsDistinct, distinct-IsDistinct,
  sub-full,
}
use llm_evaluation.Scatter.{toggle_run, is_checked}

includes-append :
    (ts : List Text) (s t : Text) → includes (ts ++ s ∷ []) t ≡ (text_eq s t || includes ts t)
unfolding includes
includes-append [] s t = ground arith
includes-append (u ∷ ts) s t = ground (arith, includes-append ts s t)

-- The texts after one is put in or taken out.
abbrev next_ids : Text → Bool → List Text → List Text
next_ids id checked current =
    if checked then distinct (current ++ id ∷ []) else keep (λ i. not (text_eq i id)) current

includes-next_ids :
    (id t : Text) (checked : Bool) (current : List Text)
    → includes (next_ids id checked current) t
      ≡ (if text_eq id t then checked else includes current t)
includes-next_ids id t true current =
    ground (arith, includes-distinct (current ++ id ∷ []) t, includes-append current id t)
includes-next_ids id t false current =
    let there = text_eq_iff id t in
    let here = text_eq_iff t id in
    ground (arith, there, here, includes-keep (λ i. not (text_eq i id)) current t)

next_ids-IsDistinct :
    (id : Text) (checked : Bool) (current : List Text)
    → IsDistinct current
    → IsDistinct (next_ids id checked current)
next_ids-IsDistinct id true current d = distinct-IsDistinct (current ++ id ∷ [])
next_ids-IsDistinct id false current d = keep-IsDistinct (λ i. not (text_eq i id)) current d

next_ids-sub :
    (id : Text) (checked : Bool) (current options : List Text)
    → includes options id ≡ true
    → current ⊆ options
    → next_ids id checked current ⊆ options
next_ids-sub id checked current options known sub t h =
    let now = includes-next_ids id t checked current in
    elim (Bool-cases (text_eq id t)) [
      | inl e ↦ rw (← (text_eq_iff id t).0 e) known
      | inr e ↦ sub t (ground arith)
    ]

is_checked-or_else :
    (selected : Option (List Text)) (options : List Text) (t : Text)
    → includes options t ≡ true
    → is_checked selected t ≡ includes (or_else selected options) t
is_checked-or_else none options t h = sym h
is_checked-or_else (some ids) options t h = refl

-- Toggling the box of a run sets this box and leaves the boxes of all other runs, for a choice of
-- runs without repetitions among the options.
pub is_checked-toggle_run :
    (options : List Text) (id : Text) (checked : Bool) (selected : Option (List Text)) (t : Text)
    → IsDistinct (or_else selected options)
    → or_else selected options ⊆ options
    → includes options id ≡ true
    → includes options t ≡ true
    → is_checked (toggle_run options id checked selected) t
      ≡ (if text_eq id t then checked else is_checked selected t)
unfolding toggle_run
is_checked-toggle_run options id checked selected t d sub known shown =
    let current = or_else selected options in
    let next = next_ids id checked current in
    let now = includes-next_ids id t checked current in
    let before = is_checked-or_else selected options t shown in
    elim (Bool-cases (length next == length options)) [
      | inl e ↦
          let full =
            sub-full next options (next_ids-IsDistinct id checked current d)
              (next_ids-sub id checked current options known sub)
              ((==_iff (length next) (length options)).0 e) t shown in
          rw e (ground arith)
      | inr e ↦ rw e (ground arith)
    ]
