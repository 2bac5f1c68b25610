-- ===== src/Evidence/Urls.antt =====
-- EvidenceMediaPreview: each run of its effect asks for the media of a sample and has its own flag and
-- its own array of the URLs that arrive; when it is disposed of, it revokes these, and URLs that
-- arrive later at once. `revoked` is what the browser has been told.
use llm_evaluation.Prelude.{
  ℕ, zero, suc, Bool, true, false, not, ◌&&◌, ◌==◌, if◌then◌else◌, Option, none, some, List, [],
  ◌∷◌, ◌++◌, all, length, Text,
}

-- What has become of the request of a medium.
pub data MediaOutcome : Type 0 where
  pending gone : MediaOutcome
  ready : Text → MediaOutcome

pub record Medium : Type 0 where
  pub asset_id : Text
  pub outcome : MediaOutcome

-- A run of the effect: its media, in their order.
pub record EffectRun : Type 0 where
  pub media : List Medium
  pub disposed : Bool
  pub object_urls : List Text

-- The runs of the effect, the newest first, and the URLs by asset; of two for one asset the later
-- one counts.
pub record Preview : Type 0 where
  pub is_mounted : Bool
  pub runs : List EffectRun
  pub urls : List (Text × Text)
  pub revoked : List Text

-- `shown`: another list of assets, so that the effect runs anew. `arrived`: for a run, the place of a
-- medium and its URL; `failed`: its request fails. `settled`: the answer of `Promise.all`.
pub data Event : Type 0 where
  shown : List Text → Event
  closed : Event
  arrived : ℕ → ℕ → Text → Event
  failed : ℕ → ℕ → Event
  settled : ℕ → Event

unfoldable pub pending_media : List Text → List Medium
pending_media [] = []
pending_media (asset ∷ assets) =
    record { asset_id = asset; outcome = pending } ∷ pending_media assets

unfoldable pub start_run : List Text → EffectRun
start_run assets = record { media = pending_media assets; disposed = false; object_urls = [] }

abbrev pub opened_preview : List Text → Preview
opened_preview assets = record {
  is_mounted = true;
  runs = start_run assets ∷ [];
  urls = [];
  revoked = [];
}

unfoldable pub set_outcome : ℕ → MediaOutcome → List Medium → List Medium
set_outcome i outcome [] = []
set_outcome zero outcome (m ∷ media) = record m { outcome = outcome } ∷ media
set_outcome (suc i) outcome (m ∷ media) = m ∷ set_outcome i outcome media

-- A URL arrives, for a run that may be disposed of.
unfoldable pub receive_url : ℕ → Text → EffectRun → EffectRun
receive_url i url r =
    if r.disposed then record r { media = set_outcome i gone r.media } else record r {
      media = set_outcome i (ready url) r.media;
      object_urls = r.object_urls ++ url ∷ [];
    }

-- The run with a number: it counts the runs before it.
unfoldable pub update : ℕ → (EffectRun → EffectRun) → List EffectRun → List EffectRun
update n change [] = []
update n change (r ∷ runs) =
    let rest = update n change runs in if n == length runs then change r ∷ runs else r ∷ rest

unfoldable pub find_run : ℕ → List EffectRun → Option EffectRun
find_run n [] = none
find_run n (r ∷ runs) = let rest = find_run n runs in if n == length runs then some r else rest

-- What is revoked when a URL arrives for a run.
abbrev pub revoked_at_once : Text → Option EffectRun → List Text
revoked_at_once url none = []
revoked_at_once url (some r) = if r.disposed then url ∷ [] else []

abbrev pub is_settled : Medium → Bool
is_settled m = elim m.outcome [ pending ↦ false | gone ↦ true | ready url ↦ true ]

unfoldable pub entries : List Medium → List (Text × Text)
entries [] = []
entries (m ∷ media) =
    let rest = entries media in
    elim m.outcome [ pending ↦ rest | gone ↦ rest | ready url ↦ (m.asset_id, url) ∷ rest ]

-- The answer of `Promise.all` behind all requests of a run.
abbrev pub settle : Option EffectRun → Preview → Preview
settle none s = s
settle (some r) s =
    if all is_settled r.media && not r.disposed then record s { urls = entries r.media } else s

-- The clean-up of the newest run.
unfoldable pub dispose : List EffectRun → List EffectRun
dispose [] = []
dispose (r ∷ runs) = record r { disposed = true } ∷ runs

abbrev pub owned_urls : List EffectRun → List Text
owned_urls [] = []
owned_urls (r ∷ runs) = r.object_urls

unfoldable pub step : Event → Preview → Preview
step (shown assets) s =
    if s.is_mounted
    then record s {
      runs = start_run assets ∷ dispose s.runs;
      revoked = owned_urls s.runs ++ s.revoked;
    }
    else s
step closed s =
    if s.is_mounted
    then record s {
      is_mounted = false;
      runs = dispose s.runs;
      revoked = owned_urls s.runs ++ s.revoked;
    }
    else s
step (arrived n i url) s = record s {
  runs = update n (receive_url i url) s.runs;
  revoked = revoked_at_once url (find_run n s.runs) ++ s.revoked;
}
step (failed n i) s = record s {
  runs = update n (λ r. record r { media = set_outcome i gone r.media }) s.runs;
}
step (settled n) s = settle (find_run n s.runs) s

unfoldable pub run : List Event → Preview → Preview
run [] s = s
run (e ∷ es) s = run es (step e s)
