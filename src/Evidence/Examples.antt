-- ===== src/Evidence/Examples.antt =====
-- The media of a message, and a preview that is closed while a request is open.
use llm_evaluation.Prelude.{
  ℕ, ◌+◌, ◌*◌, ◌≤◌, ◌≡◌, ◌⊎◌, refl, true, false, drop, ◌==◌, ltb, if◌then◌else◌, ◌++◌, Option, none,
  some, List, [], ◌∷◌, length, Text, codes, text_eq, includes, trim, is_space, drop_start, drop_end,
  cut, arith,
}
use llm_evaluation.Evidence.{
  Json, text, array, object, other, item, no_items, entry, no_entries, image, find_key, field,
  text_of, items_of, media_kind, media, source_asset, part_media, parts_media, messages_media,
  evidence_media,
}
use llm_evaluation.Types.Runs.{SampleAttempt, HumanReviewStatus}
use llm_evaluation.Evidence.Filters.{
  all_samples, Numbers, starts_with, contains, metadata, equals, is_api_error, passes_error,
  passes_judge, number_or_zero, tokens_of, sum_from, averages, is_anomalous, is_correct,
  passes_correctness, searchable, matches, filtered,
}
use llm_evaluation.Evidence.Paging.{
  Browser, initial_browser, show_more, matching, visible, has_more, browse, press, press-visible,
}
use llm_evaluation.Evidence.Urls.{
  Event, shown, closed, arrived, settled, pending_media, start_run, opened_preview, set_outcome,
  receive_url, update, find_run, entries, dispose, step, run,
}
use llm_evaluation.Evidence.Tracking.{count, live_urls, AreDisposed}
use llm_evaluation.Evidence.Revoked.{arrivals, is_closed, run-revoked}

abbrev snapshot : Json
snapshot = object (
    entry (codes "messages")
      (array (
        item other (
          item
            (object (
              entry (codes "content")
                (array (
                  item (text (codes "hello")) (
                    item
                      (object (
                        entry (codes "type") (text (codes "image")) (
                          entry (codes "mime_type") (text (codes "image/png")) (
                            entry (codes "source")
                              (object (entry (codes "asset_id") (text (codes "a1")) no_entries))
                              no_entries))))
                      no_items)))
                no_entries))
            no_items)))
      no_entries)

program : Unit {0}
unfolding find_key field text_of items_of media_kind media source_asset part_media parts_media
    messages_media evidence_media text_eq pending_media start_run set_outcome receive_url update
    find_run entries dispose step run
program = tt

one_image :
    evidence_media snapshot
    ≡ record { asset_id = codes "a1"; kind = image; mime_type = codes "image/png" } ∷ []
unfolding program
one_image = refl

abbrev visit : List Event
visit =
    arrived 0 0 (codes "blob:1")
    ∷ settled 0
    ∷ shown (codes "a2" ∷ codes "a3" ∷ [])
    ∷ arrived 1 1 (codes "blob:3")
    ∷ closed
    ∷ arrived 1 0 (codes "blob:2")
    ∷ []

all_revoked :
    (run visit (opened_preview (codes "a1" ∷ []))).revoked
    ≡ codes "blob:2" ∷ codes "blob:3" ∷ codes "blob:1" ∷ []
unfolding program
all_revoked = refl

-- The URLs stand in the order of the media, not in that of their arrival.
in_order :
    let es = arrived 0 1 (codes "blob:2") ∷ arrived 0 0 (codes "blob:1") ∷ settled 0 ∷ [] in
    (run es (opened_preview (codes "a1" ∷ codes "a2" ∷ []))).urls
    ≡ (codes "a1", codes "blob:1") ∷ (codes "a2", codes "blob:2") ∷ []
unfolding program
in_order = refl

-- Between the change of the media and their arrival the old, revoked URL is still the one of its asset.
revoked_shown :
    let s =
      run
        (arrived 0 0 (codes "blob:1") ∷ settled 0 ∷ shown [] ∷ [])
        (opened_preview (codes "a1" ∷ [])) in
    (s.urls ≡ (codes "a1", codes "blob:1") ∷ []) × (s.revoked ≡ codes "blob:1" ∷ [])
unfolding program
revoked_shown = (refl, refl)

run-revoked_example :
    let s = run visit (opened_preview (codes "a1" ∷ [])) in
    let came = arrivals (codes "blob:2") visit (opened_preview (codes "a1" ∷ [])) in
    (came ≡ count (codes "blob:2") (live_urls s.runs) + count (codes "blob:2") s.revoked)
    × AreDisposed (drop 1 s.runs)
    × ((is_closed visit ≡ false) ⊎ (came ≡ count (codes "blob:2") s.revoked))
run-revoked_example = run-revoked (codes "a1" ∷ []) visit (codes "blob:2")

abbrev whole : Numbers ℕ
whole = record {
  nought = 0;
  add = λ a b. a + b;
  mean = λ sum n. sum;
  is_over_twice = λ a b. ltb (b + b) a;
  is_one = λ n. n == 1;
}

abbrev attempt : Text → Option Text → SampleAttempt ℕ Text
attempt id error = record {
  id = id;
  sample_id = id;
  attempt_number = 1;
  input_snapshot = codes "text";
  reference_snapshot = [];
  request_snapshot = none;
  raw_response = none;
  parsed_prediction = none;
  metric_evidence = none;
  score = some 1;
  latency_ms = none;
  input_tokens = none;
  output_tokens = none;
  estimated_cost = none;
  error_type = error;
  error_message = none;
  status = codes "succeeded";
  created_at = [];
  completed_at = none;
  sample_metadata = [];
  judge_disagreement = true;
  human_review_status = HumanReviewStatus.unreviewed;
}

abbrev browser : Browser ℕ Text
browser = record initial_browser {
  attempts = attempt (codes "s1") none ∷ attempt (codes "s2") (some (codes "http_500")) ∷ [];
  filters = record all_samples { error_kind = codes "api"; query = codes " S2 " };
  visible_count = 0;
}

abbrev lower_s : Text → Text
lower_s [] = []
lower_s (c ∷ s) = (if c == 83 then 115 else c) ∷ lower_s s

filters_applied : Unit {0}
unfolding starts_with contains metadata equals is_api_error passes_error passes_judge number_or_zero
    tokens_of sum_from averages is_anomalous is_correct passes_correctness searchable matches
    filtered matching visible has_more browse press text_eq includes trim is_space drop_start
    drop_end cut
filters_applied = tt

one_api_error : length (matching whole (λ j. j) lower_s browser) ≡ 1
unfolding filters_applied
one_api_error = refl

one_press : length (matching whole (λ j. j) lower_s browser) ≤ 0 + 1 * 100
one_press = omega (arith, one_api_error)

press-visible_example :
    (visible whole (λ j. j) lower_s (press whole (λ j. j) lower_s 1 browser)
      ≡ matching whole (λ j. j) lower_s browser)
    × (more : List (SampleAttempt ℕ Text)) × (visible whole
          (λ j. j)
          lower_s
          (browse whole (λ j. j) lower_s show_more browser)
        ≡ visible whole (λ j. j) lower_s browser ++ more)
    × (length more ≤ 100)
press-visible_example = press-visible whole (λ j. j) lower_s 1 browser one_press
