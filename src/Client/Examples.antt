-- ===== src/Client/Examples.antt =====
-- The client at concrete responses and streams.
use llm_evaluation.Prelude.{ℕ, ◌≡◌, refl, false, none, List, [], ◌∷◌, codes, text_eq}
use llm_evaluation.Client.{
  Signal, chunk, done, subscribe, read_loop, receive, split_blank, split_lines, push_line,
  announces, count_events, request, thrown,
}
use llm_evaluation.Client.Chunks.{arrived, subscribe-arrived}

program : Unit {0}
unfolding subscribe read_loop receive split_blank split_lines push_line announces count_events
    text_eq request
program = tt

-- One event, cut in the middle of its name, and an unfinished one.
abbrev cut_stream : List Signal
cut_stream =
    chunk (codes "event: ru")
    ∷ chunk (codes "n\ndata: 1\n")
    ∷ chunk (codes "\nevent: run")
    ∷ done
    ∷ []

cut_stream_calls :
    subscribe (codes "run") cut_stream ≡ record { buffer = codes "event: run"; calls = 1 }
unfolding program
cut_stream_calls = refl

subscribe-arrived_example :
    let pieces = split_blank (arrived cut_stream) in
    subscribe (codes "run") cut_stream
    ≡ record { buffer = pieces.1; calls = count_events (codes "run") pieces.0 }
subscribe-arrived_example = subscribe-arrived (codes "run") cut_stream

no_detail :
    request {A = ℕ} (record { is_ok = false; status = 502; detail = none; body = 0 })
    ≡ thrown (record { message = codes "Request failed."; status = 502 })
unfolding program
no_detail = refl
