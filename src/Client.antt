-- ===== src/Client.antt =====
-- frontend/src/shared/api/client.ts and errors.ts: how a response becomes a value or an error, and
-- the reader of the event stream. The network, the JSON reader and the text decoder are outside: a
-- response and the decoded chunks of a stream are given.
pub mod Chunks
mod Examples
use llm_evaluation.Prelude.{
  ℕ, ◌+◌, Bool, true, false, ◌&&◌, ◌==◌, if◌then◌else◌, Option, none, some, List, [], ◌∷◌, ◌++◌,
  Text, codes, text_eq, any,
}

pub record ApiError : Type 0 where
  pub message : Text
  pub status : ℕ

-- What `fetch` gives: the flag `ok`, the status, the `detail` of the body where the body is JSON
-- and the detail a string, and the value of the body.
pub record Response {ℓ} (A : Type ℓ) : Type ℓ where
  pub is_ok : Bool
  pub status : ℕ
  pub detail : Option Text
  pub body : A

pub data Outcome {ℓ} (A : Type ℓ) : Type ℓ where
  value : A → Outcome A
  undefined : Outcome A
  thrown : ApiError → Outcome A

abbrev pub detail_or : Option Text → Text → Text
detail_or none text = text
detail_or (some detail) text = detail

pub request {ℓ} : {A : Type ℓ} → Response A → Outcome A
request r =
    if r.is_ok
    then if r.status == 204 then undefined else value r.body
    else thrown
        (record { message = detail_or r.detail (codes "Request failed."); status = r.status })

-- `buffer.split("\n\n")`: the pieces but the last, and the last, which `messages.pop()` takes.
abbrev pub Pieces : Type 0
Pieces = List Text × Text

abbrev pub push_front : ℕ → Pieces → Pieces
push_front c ([], last) = ([], c ∷ last)
push_front c (m ∷ ms, last) = ((c ∷ m) ∷ ms, last)

abbrev pub close_front : Pieces → Pieces
close_front (ms, last) = ([] ∷ ms, last)

pub split_blank : Text → Pieces
split_blank [] = ([], [])
split_blank (c ∷ []) = ([], c ∷ [])
split_blank (c ∷ d ∷ s) =
    let closed = split_blank s in
    let longer = split_blank (d ∷ s) in
    if c == b'\n' && d == b'\n' then close_front closed else push_front c longer

-- `message.split("\n")`.
pub push_line : ℕ → List Text → List Text
push_line c [] = (c ∷ []) ∷ []
push_line c (l ∷ ls) = (c ∷ l) ∷ ls

pub split_lines : Text → List Text
split_lines [] = [] ∷ []
split_lines (c ∷ s) = let rest = split_lines s in if c == b'\n' then [] ∷ rest else push_line c rest

-- `message.split("\n").some((line) => line === "event: " + eventName)`.
pub announces : Text → Text → Bool
announces event_name message =
    any (λ line. text_eq line (codes "event: " ++ event_name)) (split_lines message)

pub count_events : Text → List Text → ℕ
count_events event_name [] = 0
count_events event_name (m ∷ ms) =
    (if announces event_name m then 1 else 0) + count_events event_name ms

-- The buffer, and how often `onEvent` has been called.
pub record Stream : Type 0 where
  pub buffer : Text
  pub calls : ℕ

-- One turn of the loop, on a decoded chunk.
pub receive : Text → Stream → Text → Stream
receive event_name s chunk =
    let pieces = split_blank (s.buffer ++ chunk) in
    record { buffer = pieces.1; calls = s.calls + count_events event_name pieces.0 }

-- What the reader reports: a chunk, the end, or that the subscription was aborted.
pub data Signal : Type 0 where
  chunk : Text → Signal
  done aborted : Signal

pub read_loop : Text → Stream → List Signal → Stream
read_loop event_name s [] = s
read_loop event_name s (chunk c ∷ signals) = read_loop event_name (receive event_name s c) signals
read_loop event_name s (done ∷ signals) = s
read_loop event_name s (aborted ∷ signals) = s

-- `subscribeToEvents`, from an empty buffer.
pub subscribe : Text → List Signal → Stream
subscribe event_name signals = read_loop event_name (record { buffer = []; calls = 0 }) signals
