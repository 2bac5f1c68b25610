-- ===== src/Evidence/Revoked.antt =====
-- No object URL of a preview is lost.
use llm_evaluation.Prelude.{
  ℕ, suc, ◌+◌, ◌≡◌, ◌⊎◌, inl, inr, refl, ap, ◌∙◌, Bool, true, false, not, ◌&&◌, ltb, if◌then◌else◌,
  List, [], ◌∷◌, length, drop, all, Text, text_eq, Bool-cases, Option-cases, arith,
}
use llm_evaluation.Evidence.Urls.{
  EffectRun, Preview, Event, shown, closed, arrived, failed, settled, start_run, opened_preview,
  gone, set_outcome, receive_url, find_run, revoked_at_once, is_settled, dispose, owned_urls, step,
  run,
}
use llm_evaluation.Evidence.Tracking.{
  count, live_urls, AreDisposed, IsLed, count-append, live_urls-none, live_urls-dispose,
  dispose-AreDisposed, AreDisposed-IsLed, IsLed-AreDisposed, update-IsLed, receive_url-disposed,
  update-count, update-live_urls, live_urls-start_run,
}

-- How often a URL arrives for a run that has been started.
unfoldable pub arrivals : Text → List Event → Preview → ℕ
arrivals url [] s = 0
arrivals url (arrived n i u ∷ es) s =
    let rest = arrivals url es (step (arrived n i u) s) in
    if ltb n (length s.runs) && text_eq u url then suc rest else rest
arrivals url (e ∷ es) s = arrivals url es (step e s)

unfoldable pub is_closed : List Event → Bool
is_closed [] = false
is_closed (closed ∷ es) = true
is_closed (e ∷ es) = is_closed es

-- How often a URL is owned by a run that is not disposed of, or revoked.
abbrev tracked : Text → Preview → ℕ
tracked url s = count url (live_urls s.runs) + count url s.revoked

settle-runs :
    (n : ℕ) (s : Preview)
    → ((step (settled n) s).runs ≡ s.runs)
      × ((step (settled n) s).revoked ≡ s.revoked)
      × ((step (settled n) s).is_mounted ≡ s.is_mounted)
unfolding step
settle-runs n s = elim (Option-cases (find_run n s.runs)) [
  | inl e ↦ rw e (refl, refl, refl)
  | inr (r, e) ↦ elim (Bool-cases (all is_settled r.media && not r.disposed)) [
    | inl k ↦ rw (e, k) (refl, refl, refl)
    | inr k ↦ rw (e, k) (refl, refl, refl)
  ]
]

step-IsLed :
    (e : Event) (s : Preview)
    → IsLed s.is_mounted s.runs
    → IsLed (step e s).is_mounted (step e s).runs
unfolding step start_run
step-IsLed (shown assets) s h = elim (Bool-cases s.is_mounted) [
  | inl k ↦ rw k (refl, dispose-AreDisposed s.runs (rw k at h))
  | inr k ↦ let same : step (shown assets) s ≡ s = rw k in rw same h
]
step-IsLed closed s h = elim (Bool-cases s.is_mounted) [
  | inl k ↦ rw k (AreDisposed-IsLed (dispose s.runs) (dispose-AreDisposed s.runs (rw k at h)))
  | inr k ↦ let same : step closed s ≡ s = rw k in rw same h
]
step-IsLed (arrived n i url) s h =
    update-IsLed (receive_url i url) (receive_url-disposed i url) s.is_mounted n s.runs h
step-IsLed (failed n i) s h =
    update-IsLed (λ r. record r { media = set_outcome i gone r.media }) (λ r. refl) s.is_mounted n
      s.runs h
step-IsLed (settled n) s h = let (runs, revoked, mounted) = settle-runs n s in rw (runs, mounted) h

step-arrivals :
    (url : Text) (e : Event) (s : Preview) (es : List Event)
    → IsLed s.is_mounted s.runs
    → arrivals url (e ∷ es) s + tracked url s ≡ arrivals url es (step e s) + tracked url (step e s)
unfolding step arrivals start_run
step-arrivals url (shown assets) s es h = elim (Bool-cases s.is_mounted) [
  | inl k ↦
      let owned = live_urls-dispose url s.runs (rw k at h) in
      let sum = count-append url (owned_urls s.runs) s.revoked in
      let new = live_urls-start_run url assets (dispose s.runs) in
      rw (k, sum, new) (omega (arith, owned))
  | inr k ↦ rw k
]
step-arrivals url closed s es h = elim (Bool-cases s.is_mounted) [
  | inl k ↦
      let owned = live_urls-dispose url s.runs (rw k at h) in
      let sum = count-append url (owned_urls s.runs) s.revoked in rw (k, sum) (omega (arith, owned))
  | inr k ↦ rw k
]
step-arrivals url (arrived n i u) s es h =
    let sum = count-append url (revoked_at_once u (find_run n s.runs)) s.revoked in
    let moved = update-count url n i u s.runs in rw sum (ground (arith, moved))
step-arrivals url (failed n i) s es h = rw (update-live_urls n i s.runs)
step-arrivals url (settled n) s es h =
    let (runs, revoked, mounted) = settle-runs n s in rw (runs, revoked)

run-tracked :
    (url : Text) (es : List Event) (s : Preview)
    → IsLed s.is_mounted s.runs
    → IsLed (run es s).is_mounted (run es s).runs
      × (arrivals url es s + tracked url s ≡ tracked url (run es s))
unfolding run arrivals
run-tracked url [] s h = (h, omega arith)
run-tracked url (e ∷ es) s h =
    let (led, sum) = run-tracked url es (step e s) (step-IsLed e s h) in
    (led, step-arrivals url e s es h ∙ sum)

step-is_mounted : (e : Event) (s : Preview) → s.is_mounted ≡ false → (step e s).is_mounted ≡ false
unfolding step
step-is_mounted (shown assets) s h = rw h
step-is_mounted closed s h = rw h
step-is_mounted (arrived n i url) s h = h
step-is_mounted (failed n i) s h = h
step-is_mounted (settled n) s h = (settle-runs n s).2 ∙ h

run-is_mounted :
    (es : List Event) (s : Preview) → s.is_mounted ≡ false → (run es s).is_mounted ≡ false
unfolding run
run-is_mounted [] s h = h
run-is_mounted (e ∷ es) s h = run-is_mounted es (step e s) (step-is_mounted e s h)

step-closed : (s : Preview) → (step closed s).is_mounted ≡ false
unfolding step
step-closed s = elim (Bool-cases s.is_mounted) [ inl k ↦ rw k | inr k ↦ rw k ]

closed-is_mounted :
    (es : List Event) (s : Preview) → is_closed es ≡ true → (run es s).is_mounted ≡ false
unfolding run is_closed
closed-is_mounted [] s h = cc
closed-is_mounted (closed ∷ es) s h = run-is_mounted es (step closed s) (step-closed s)
closed-is_mounted (shown assets ∷ es) s h = closed-is_mounted es (step (shown assets) s) h
closed-is_mounted (arrived n i url ∷ es) s h = closed-is_mounted es (step (arrived n i url) s) h
closed-is_mounted (failed n i ∷ es) s h = closed-is_mounted es (step (failed n i) s) h
closed-is_mounted (settled n ∷ es) s h = closed-is_mounted es (step (settled n) s) h

IsLed-behind :
    (mounted : Bool) (runs : List EffectRun) → IsLed mounted runs → AreDisposed (drop 1 runs)
IsLed-behind mounted [] h = tt
IsLed-behind mounted (r ∷ runs) (here, later) = later

-- Each object URL that arrives for the media of a sample is revoked, as often as it arrives, or is in
-- the array of a run of the effect that is not disposed of: none is lost and none is revoked while it
-- is owned, in whatever order samples are shown and requests are answered. All runs but the newest
-- are disposed of. When the preview is closed, all URLs that have arrived are revoked.
pub run-revoked :
    (assets : List Text) (es : List Event) (url : Text)
    → let s = run es (opened_preview assets) in
      let arrived = arrivals url es (opened_preview assets) in
      (arrived ≡ count url (live_urls s.runs) + count url s.revoked)
      × AreDisposed (drop 1 s.runs)
      × ((is_closed es ≡ false) ⊎ (arrived ≡ count url s.revoked))
unfolding count live_urls start_run
run-revoked assets es url =
    let opened = opened_preview assets in
    let s = run es opened in
    let (led, sum) = run-tracked url es opened (refl, tt) in
    let whole : arrivals url es opened ≡ count url (live_urls s.runs) + count url s.revoked =
      omega (arith, sum) in
    (
      whole,
      IsLed-behind s.is_mounted s.runs led,
      elim (Bool-cases (is_closed es)) [
        | inl k ↦
            let off = closed-is_mounted es opened k in
            let none_left = live_urls-none s.runs (IsLed-AreDisposed s.runs (rw off at led)) in
            let left = ap (count url) none_left in inr (omega (arith, whole, left))
        | inr k ↦ inl k
      ],
    )
