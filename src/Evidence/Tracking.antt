-- ===== src/Evidence/Tracking.antt =====
-- What is counted of a preview: how often a URL stands in a list, and the URLs of its live runs.
use llm_evaluation.Prelude.{
  ℕ, suc, ◌+◌, ◌≡◌, inl, inr, refl, ap, ◌∙◌, Bool, true, false, not, ◌&&◌, ◌==◌, ltb, if◌then◌else◌,
  List, [], ◌∷◌, ◌++◌, length, All, Text, text_eq, Bool-cases, arith,
}
use llm_evaluation.Evidence.Urls.{
  EffectRun, start_run, gone, set_outcome, receive_url, update, find_run, revoked_at_once, dispose,
  owned_urls,
}

-- How often a URL stands in a list.
unfoldable pub count : Text → List Text → ℕ
count url [] = 0
count url (u ∷ us) = let rest = count url us in if text_eq u url then suc rest else rest

abbrev once : Text → Text → ℕ
once url u = if text_eq u url then 1 else 0

-- The URLs of the runs that are not disposed of.
unfoldable pub live_urls : List EffectRun → List Text
live_urls [] = []
live_urls (r ∷ runs) =
    let rest = live_urls runs in if r.disposed then rest else r.object_urls ++ rest

abbrev pub AreDisposed : List EffectRun → Type 0
AreDisposed runs = All (λ r. r.disposed ≡ true) runs

-- While the preview is mounted, the newest run alone is not disposed of; then all are.
abbrev pub IsLed : Bool → List EffectRun → Type 0
IsLed mounted [] = Unit
IsLed mounted (r ∷ runs) = (r.disposed ≡ not mounted) × AreDisposed runs

pub count-append :
    (url : Text) (us vs : List Text) → count url (us ++ vs) ≡ count url us + count url vs
unfolding count
count-append url [] vs = ground arith
count-append url (u ∷ us) vs = ground (arith, count-append url us vs)

count-single : (url u : Text) → count url (u ∷ []) ≡ once url u
unfolding count
count-single url u = ground arith

pub live_urls-none : (runs : List EffectRun) → AreDisposed runs → live_urls runs ≡ []
unfolding live_urls
live_urls-none [] h = refl
live_urls-none (r ∷ runs) (here, later) = rw here (live_urls-none runs later)

pub live_urls-dispose :
    (url : Text) (runs : List EffectRun)
    → IsLed true runs
    → count url (live_urls (dispose runs)) + count url (owned_urls runs)
      ≡ count url (live_urls runs)
unfolding live_urls dispose count
live_urls-dispose url [] h = omega arith
live_urls-dispose url (r ∷ runs) (here, later) =
    let sum = count-append url r.object_urls (live_urls runs) in rw here (omega (arith, sum))

pub dispose-AreDisposed : (runs : List EffectRun) → IsLed true runs → AreDisposed (dispose runs)
unfolding dispose
dispose-AreDisposed [] h = tt
dispose-AreDisposed (r ∷ runs) (here, later) = (refl, later)

pub AreDisposed-IsLed : (runs : List EffectRun) → AreDisposed runs → IsLed false runs
AreDisposed-IsLed [] h = tt
AreDisposed-IsLed (r ∷ runs) h = h

pub IsLed-AreDisposed : (runs : List EffectRun) → IsLed false runs → AreDisposed runs
IsLed-AreDisposed [] h = tt
IsLed-AreDisposed (r ∷ runs) h = h

-- A change of a run that keeps its flag.
module _ (change : EffectRun → EffectRun)
    (same : (r : EffectRun) → (change r).disposed ≡ r.disposed) where
  update-AreDisposed :
      (n : ℕ) (runs : List EffectRun) → AreDisposed runs → AreDisposed (update n change runs)
  unfolding update
  update-AreDisposed n [] h = tt
  update-AreDisposed n (r ∷ runs) (here, later) = elim (Bool-cases (n == length runs)) [
    | inl e ↦ rw e (same r ∙ here, later)
    | inr e ↦ rw e (here, update-AreDisposed n runs later)
  ]

  pub update-IsLed :
      (mounted : Bool) (n : ℕ) (runs : List EffectRun)
      → IsLed mounted runs
      → IsLed mounted (update n change runs)
  unfolding update
  update-IsLed mounted n [] h = tt
  update-IsLed mounted n (r ∷ runs) (here, later) = elim (Bool-cases (n == length runs)) [
    | inl e ↦ rw e (same r ∙ here, later)
    | inr e ↦ rw e (here, update-AreDisposed n runs later)
  ]

pub receive_url-disposed :
    (i : ℕ) (url : Text) (r : EffectRun) → (receive_url i url r).disposed ≡ r.disposed
unfolding receive_url
receive_url-disposed i url r = elim (Bool-cases r.disposed) [ inl e ↦ rw e | inr e ↦ rw e ]

receive_url-object_urls :
    (i : ℕ) (url : Text) (r : EffectRun)
    → r.disposed ≡ false
    → (receive_url i url r).object_urls ≡ r.object_urls ++ url ∷ []
unfolding receive_url
receive_url-object_urls i url r d = rw d

-- A URL that arrives for a run goes to its array or is revoked.
pub update-count :
    (url : Text) (n i : ℕ) (u : Text) (runs : List EffectRun)
    → count url (live_urls (update n (receive_url i u) runs))
        + count url (revoked_at_once u (find_run n runs))
      ≡ (if ltb n (length runs) && text_eq u url then 1 else 0) + count url (live_urls runs)
unfolding update find_run live_urls count
update-count url n i u [] = ground arith
update-count url n i u (r ∷ runs) = elim (Bool-cases (n == length runs)) [
  | inl e ↦ elim (Bool-cases r.disposed) [
    | inl d ↦
        let kept : (receive_url i u r).disposed ≡ true = receive_url-disposed i u r ∙ d in
        rw (e, kept, d) (ground (arith, e, count-single url u))
    | inr d ↦
        let kept : (receive_url i u r).disposed ≡ false = receive_url-disposed i u r ∙ d in
        let pushed : (receive_url i u r).object_urls ≡ r.object_urls ++ u ∷ [] =
          receive_url-object_urls i u r d in
        let sum =
          ap (λ t. count url (t ++ live_urls runs)) pushed
          ∙ count-append url (r.object_urls ++ u ∷ []) (live_urls runs) in
        let one = count-append url r.object_urls (u ∷ []) in
        let old = count-append url r.object_urls (live_urls runs) in
        let unit = count-single url u in rw (e, kept, d) (ground (arith, e, sum, one, old, unit))
  ]
  | inr e ↦ elim (Bool-cases r.disposed) [
    | inl d ↦ rw (e, d) (ground (arith, e, update-count url n i u runs))
    | inr d ↦
        let new = count-append url r.object_urls (live_urls (update n (receive_url i u) runs)) in
        let old = count-append url r.object_urls (live_urls runs) in
        rw (e, d) (ground (arith, e, new, old, update-count url n i u runs))
  ]
]

-- A change of a run that keeps its flag and its array.
pub update-live_urls :
    (n i : ℕ) (runs : List EffectRun)
    → live_urls (update n (λ r. record r { media = set_outcome i gone r.media }) runs)
      ≡ live_urls runs
unfolding update live_urls
update-live_urls n i [] = refl
update-live_urls n i (r ∷ runs) = elim (Bool-cases (n == length runs)) [
  | inl e ↦ rw e
  | inr e ↦ rw (e, update-live_urls n i runs)
]

pub live_urls-start_run :
    (url : Text) (assets : List Text) (runs : List EffectRun)
    → count url (live_urls (start_run assets ∷ runs)) ≡ count url (live_urls runs)
unfolding live_urls start_run
live_urls-start_run url assets runs = refl
