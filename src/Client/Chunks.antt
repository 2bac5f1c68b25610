-- ===== src/Client/Chunks.antt =====
-- The event reader does not depend on how the stream is cut into chunks.
use llm_evaluation.Prelude.{
  ℕ, ◌+◌, ◌≡◌, refl, sym, ◌∙◌, ap, Bool, false, ◌&&◌, ◌==◌, List, [], ◌∷◌, ◌++◌, Text, arith,
  Bool-cases, inl, inr,
}
use native.Mathlib.Nat.{add_assoc}
use mathlib.Core.List.{append-nil, append_assoc}
use llm_evaluation.Client.{
  Pieces, push_front, close_front, split_blank, count_events, Stream, receive, Signal, chunk, done,
  aborted, read_loop, subscribe,
}

abbrev both_ends : ℕ → ℕ → Bool
both_ends c d = c == b'\n' && d == b'\n'

push_front-nil :
    (c : ℕ) (p : Pieces) → (push_front c p).0 ≡ [] → (p.0 ≡ []) × ((push_front c p).1 ≡ c ∷ p.1)
push_front-nil c ([], last) h = (refl, refl)
push_front-nil c (m ∷ ms, last) h = cc

-- A text that is not cut is its own last piece.
whole : (s : Text) → (split_blank s).0 ≡ [] → (split_blank s).1 ≡ s
unfolding split_blank
whole [] h = refl
whole (c ∷ []) h = refl
whole (c ∷ d ∷ s) h = elim (Bool-cases (both_ends c d)) [
  | inl e ↦ cc (rw e at h)
  | inr e ↦
      let (none_cut, last) = push_front-nil c (split_blank (d ∷ s)) (rw e at h) in
      rw e (last ∙ ap (◌∷◌ c) (whole (d ∷ s) none_cut))
]

abbrev after : Pieces → Text → Pieces
after p y = let q = split_blank (p.1 ++ y) in (p.0 ++ q.0, q.1)

push_front-after :
    (c d : ℕ) (s y : Text) (p : Pieces)
    → (p.0 ≡ [] → p.1 ≡ d ∷ s)
    → both_ends c d ≡ false
    → push_front c (after p y) ≡ after (push_front c p) y
unfolding split_blank
push_front-after c d s y ([], last) h e = rw (h refl, e)
push_front-after c d s y (m ∷ ms, last) h e = refl

-- Cutting a longer text goes on from the last piece of the shorter one.
split_blank-append : (x y : Text) → split_blank (x ++ y) ≡ after (split_blank x) y
unfolding split_blank
split_blank-append [] y = refl
split_blank-append (c ∷ []) y = refl
split_blank-append (c ∷ d ∷ s) y = elim (Bool-cases (both_ends c d)) [
  | inl e ↦ rw e (ap close_front (split_blank-append s y))
  | inr e ↦ rw e (
      ap (push_front c) (split_blank-append (d ∷ s) y)
      ∙ push_front-after c d s y (split_blank (d ∷ s)) (whole (d ∷ s)) e)
]

count_events-append :
    (name : Text) (xs ys : List Text)
    → count_events name (xs ++ ys) ≡ count_events name xs + count_events name ys
unfolding count_events
count_events-append name [] ys = omega arith
count_events-append name (x ∷ xs) ys = omega (arith, count_events-append name xs ys)

-- Two chunks are received as one.
receive-append :
    (name : Text) (s : Stream) (x y : Text)
    → receive name (receive name s x) y ≡ receive name s (x ++ y)
unfolding receive
receive-append name s x y =
    let joined = split_blank-append (s.buffer ++ x) y in
    rw (sym (append_assoc s.buffer x y), joined, count_events-append, ← add_assoc)

-- The text that arrives before the stream ends or is aborted.
pub arrived : List Signal → Text
arrived [] = []
arrived (chunk c ∷ signals) = c ++ arrived signals
arrived (done ∷ signals) = []
arrived (aborted ∷ signals) = []

abbrev start : Stream
start = record { buffer = []; calls = 0 }

read_loop-receive :
    (name x : Text) (signals : List Signal)
    → read_loop name (receive name start x) signals ≡ receive name start (x ++ arrived signals)
unfolding read_loop arrived
read_loop-receive name x [] = rw (append-nil x)
read_loop-receive name x (done ∷ signals) = rw (append-nil x)
read_loop-receive name x (aborted ∷ signals) = rw (append-nil x)
read_loop-receive name x (chunk c ∷ signals) =
    rw receive-append (read_loop-receive name (x ++ c) signals ∙ rw append_assoc)

-- A subscription calls `onEvent` once for each complete message that announces the event, in the
-- text that arrived before the end, and keeps the text behind the last blank line: however the
-- stream was cut into chunks.
pub subscribe-arrived :
    (name : Text) (signals : List Signal)
    → let pieces = split_blank (arrived signals) in
      subscribe name signals ≡ record { buffer = pieces.1; calls = count_events name pieces.0 }
unfolding subscribe receive split_blank count_events
subscribe-arrived name signals =
    rw (read_loop-receive name [] signals) (
      ap (λ (n : ℕ). record { buffer = (split_blank (arrived signals)).1; calls = n })
        (omega arith))
