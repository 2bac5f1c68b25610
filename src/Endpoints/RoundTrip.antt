-- ===== src/Endpoints/RoundTrip.antt =====
-- Saving the form of an endpoint unchanged changes nothing.
use llm_evaluation.Prelude.{
  ◌≡◌, refl, ap, ◌∙◌, true, false, arith, Option, none, some, [], All, Text, or_else, truthy,
  non_empty, trim,
}
use llm_evaluation.Types.Endpoints.{Endpoint, ReasoningEffort}
use llm_evaluation.Prompts.{Json}
use llm_evaluation.Endpoints.{
  EndpointForm, Formats, EndpointPayload, update_endpoint, effort_choice, effort_or_null,
  optional_number, number_text, edit_form, payload, request_for, save_request,
}
use llm_evaluation.Endpoints.Tags.{IsTag, tags_of-join_commas}

module _ {N J : Type 0} (formats : Formats N J) (json : Json J) where
  -- The body that asks for just what an endpoint has, and leaves its key alone.
  abbrev pub same_endpoint : Endpoint N J → EndpointPayload N J
  same_endpoint endpoint = record {
    api_key = none;
    api_key_max_concurrency = endpoint.api_key_max_concurrency;
    base_url = endpoint.base_url;
    currency = endpoint.currency;
    custom_headers = formats.object endpoint.custom_headers;
    default_request_body = endpoint.default_request_body;
    display_name = endpoint.display_name;
    input_cost_per_million = endpoint.input_cost_per_million;
    input_tokens_per_minute = endpoint.input_tokens_per_minute;
    context_length = endpoint.context_length;
    max_concurrency = endpoint.max_concurrency;
    max_output_tokens = endpoint.max_output_tokens;
    model_name = endpoint.model_name;
    notes = endpoint.notes;
    output_cost_per_million = endpoint.output_cost_per_million;
    output_tokens_per_minute = endpoint.output_tokens_per_minute;
    protocol_profile = endpoint.protocol_profile;
    requests_per_minute = endpoint.requests_per_minute;
    requests_per_second = endpoint.requests_per_second;
    reasoning_effort = endpoint.reasoning_effort;
    tags = endpoint.tags;
    timeout_seconds = endpoint.timeout_seconds;
    tokens_per_minute = endpoint.tokens_per_minute;
  }

  -- A number that is written is read back, and is not written as blanks.
  abbrev pub IsReadBack : Type 0
  IsReadBack =
      (n : N)
      → (formats.to_number (formats.to_text n) ≡ n) × (truthy (trim (formats.to_text n)) ≡ true)

  -- A value that is written is parsed as that value.
  abbrev pub IsParsedBack : Type 0
  IsParsedBack = (value : J) → json.parse (json.stringify value) ≡ some value

  -- An endpoint that the form gives back: with an identifier, a currency in upper case, tags that can
  -- be written in a list, no empty notes, and objects for its body and its headers. The service also
  -- stores others: a tag with a comma becomes two tags, and empty notes become none.
  pub record IsStable (endpoint : Endpoint N J) : Type 0 where
    pub identified : truthy endpoint.id ≡ true
    pub upper : formats.to_upper_case endpoint.currency ≡ endpoint.currency
    pub tags : All IsTag endpoint.tags
    pub notes : non_empty (or_else endpoint.notes []) ≡ endpoint.notes
    pub body : json.is_object endpoint.default_request_body ≡ true
    pub headers : json.is_object (formats.object endpoint.custom_headers) ≡ true

  optional_number-number_text :
      (n : Option N) → IsReadBack → optional_number formats json (number_text formats json n) ≡ n
  unfolding optional_number number_text trim
  optional_number-number_text none h = refl
  optional_number-number_text (some n) h = rw ((h n).1, (h n).0)

  effort_or_null-effort_choice : (e : Option ReasoningEffort) → effort_or_null (effort_choice e) ≡ e
  effort_or_null-effort_choice none = refl
  effort_or_null-effort_choice (some e) = refl

  payload-edit_form :
      (endpoint : Endpoint N J)
      → IsReadBack
      → IsStable endpoint
      → record (payload formats json
          (edit_form formats json endpoint)
          endpoint.default_request_body
          (formats.object endpoint.custom_headers)) { api_key = none }
        ≡ same_endpoint endpoint
  unfolding payload edit_form
  payload-edit_form endpoint back h =
      let read = λ (n : Option N). optional_number-number_text n back in
      rw (
        read endpoint.api_key_max_concurrency,
        read endpoint.input_cost_per_million,
        read endpoint.input_tokens_per_minute,
        read endpoint.context_length,
        read endpoint.max_output_tokens,
        read endpoint.output_cost_per_million,
        read endpoint.output_tokens_per_minute,
        read endpoint.requests_per_minute,
        read endpoint.requests_per_second,
        read endpoint.tokens_per_minute,
        (back endpoint.max_concurrency).0,
        (back endpoint.timeout_seconds).0,
        h.upper,
        h.notes,
        effort_or_null-effort_choice endpoint.reasoning_effort,
        tags_of-join_commas endpoint.tags h.tags,
      )

  -- Two texts that parse as objects make a request.
  save_request-sent :
      (editing : Option Text) (form : EndpointForm) (body headers : J)
      → json.parse form.default_request_body ≡ some body
      → json.parse form.custom_headers ≡ some headers
      → json.is_object body ≡ true
      → json.is_object headers ≡ true
      → save_request formats json editing form ≡ request_for formats json editing form body headers
  unfolding save_request
  save_request-sent editing form body headers h k i j = ground (arith, h, k, i, j)

  -- A form without a key leaves the key of the endpoint alone.
  request_for-keyless :
      (id : Text) (form : EndpointForm) (body headers : J)
      → truthy id ≡ true
      → truthy (trim form.api_key) ≡ false
      → request_for formats json (some id) form body headers
        ≡ update_endpoint id (record (payload formats json form body headers) { api_key = none })
  unfolding request_for
  request_for-keyless id form body headers h k = rw (h, k)

  -- Saving the form of an endpoint that is edited and left as it is asks to update this endpoint with
  -- just what it has, without a key, if numbers and JSON are read back as they were written, and the
  -- endpoint has an identifier, its currency in upper case, tags that are not empty and have no commas
  -- and no blanks around them, notes that are not empty, if there are any, and objects for its body and
  -- its headers.
  pub save_request-edit_form :
      (endpoint : Endpoint N J)
      → IsReadBack
      → IsParsedBack
      → IsStable endpoint
      → save_request formats json (some endpoint.id) (edit_form formats json endpoint)
        ≡ update_endpoint endpoint.id (same_endpoint endpoint)
  unfolding edit_form trim
  save_request-edit_form endpoint back parsed h =
      let form = edit_form formats json endpoint in
      let sent =
        save_request-sent (some endpoint.id) form endpoint.default_request_body
          (formats.object endpoint.custom_headers) (parsed endpoint.default_request_body)
          (parsed (formats.object endpoint.custom_headers)) h.body h.headers in
      let kept =
        request_for-keyless endpoint.id form endpoint.default_request_body
          (formats.object endpoint.custom_headers) h.identified refl in
      let same = payload-edit_form endpoint back h in
      sent ∙ kept ∙ ap (update_endpoint endpoint.id) same
