-- ===== src/Endpoints.antt =====
-- frontend/src/features/endpoints/EndpointsRoute.tsx and components/pages/EndpointPages.tsx: the form
-- of a model endpoint, filled from an endpoint that is edited, and the request that saving it makes.
-- Numbers, with their reading and writing as texts, `toUpperCase` and JSON are parameters.
pub mod Session
pub mod Inventory
pub mod Tags
pub mod RoundTrip
pub mod Commit
pub mod Preferred
mod Examples
use llm_evaluation.Prelude.{
  ℕ, Bool, true, false, not, ◌&&◌, ◌==◌, if◌then◌else◌, Option, none, some, List, [], ◌∷◌, ◌++◌,
  map, keep, or_else, truthy, non_empty, Text, codes, trim,
}
use llm_evaluation.Types.Endpoints.{Endpoint, ProtocolProfile, ReasoningEffort}
use llm_evaluation.Prompts.{Json}

-- The select of the reasoning effort: "" is `provider_default`.
pub data EffortChoice : Type 0 where
  provider_default : EffortChoice
  effort : ReasoningEffort → EffortChoice

pub record EndpointForm : Type 0 where
  pub api_key : Text
  pub api_key_max_concurrency : Text
  pub base_url : Text
  pub currency : Text
  pub custom_headers : Text
  pub default_request_body : Text
  pub display_name : Text
  pub input_cost_per_million : Text
  pub input_tokens_per_minute : Text
  pub context_length : Text
  pub max_concurrency : Text
  pub max_output_tokens : Text
  pub model_name : Text
  pub notes : Text
  pub output_cost_per_million : Text
  pub output_tokens_per_minute : Text
  pub protocol_profile : ProtocolProfile
  pub requests_per_minute : Text
  pub requests_per_second : Text
  pub reasoning_effort : EffortChoice
  pub tags : Text
  pub timeout_seconds : Text
  pub tokens_per_minute : Text

abbrev pub initial_endpoint : EndpointForm
initial_endpoint = record {
  api_key = [];
  api_key_max_concurrency = [];
  base_url = [];
  currency = codes "USD";
  custom_headers = codes "{}";
  default_request_body = codes "{}";
  display_name = [];
  input_cost_per_million = [];
  input_tokens_per_minute = [];
  context_length = [];
  max_concurrency = codes "1";
  max_output_tokens = [];
  model_name = [];
  notes = [];
  output_cost_per_million = [];
  output_tokens_per_minute = [];
  protocol_profile = ProtocolProfile.openai_chat_completions;
  requests_per_minute = [];
  requests_per_second = [];
  reasoning_effort = provider_default;
  tags = [];
  timeout_seconds = codes "60";
  tokens_per_minute = [];
}

-- The body of the request. A key that is deleted is `none`.
pub record EndpointPayload (N J : Type 0) : Type 0 where
  pub api_key : Option Text
  pub api_key_max_concurrency : Option N
  pub base_url : Text
  pub currency : Text
  pub custom_headers : J
  pub default_request_body : J
  pub display_name : Text
  pub input_cost_per_million : Option N
  pub input_tokens_per_minute : Option N
  pub context_length : Option N
  pub max_concurrency : N
  pub max_output_tokens : Option N
  pub model_name : Text
  pub notes : Option Text
  pub output_cost_per_million : Option N
  pub output_tokens_per_minute : Option N
  pub protocol_profile : ProtocolProfile
  pub requests_per_minute : Option N
  pub requests_per_second : Option N
  pub reasoning_effort : Option ReasoningEffort
  pub tags : List Text
  pub timeout_seconds : N
  pub tokens_per_minute : Option N

pub data EndpointFormError : Type 0 where
  invalid_json body_must_object headers_must_object : EndpointFormError

-- What saving asks of the service, or the error that it reports instead.
pub data SaveRequest (N J : Type 0) : Type 0 where
  create_endpoint : EndpointPayload N J → SaveRequest N J
  update_endpoint : Text → EndpointPayload N J → SaveRequest N J
  refused : EndpointFormError → SaveRequest N J

-- `split(",")`.
abbrev pub push_char : ℕ → List Text → List Text
push_char c [] = (c ∷ []) ∷ []
push_char c (piece ∷ pieces) = (c ∷ piece) ∷ pieces

unfoldable pub split_commas : Text → List Text
split_commas [] = [] ∷ []
split_commas (c ∷ s) = let rest = split_commas s in if c == 44 then [] ∷ rest else push_char c rest

-- `join(", ")`.
unfoldable pub join_commas : List Text → Text
join_commas [] = []
join_commas (tag ∷ []) = tag
join_commas (tag ∷ next ∷ tags) = tag ++ 44 ∷ 32 ∷ join_commas (next ∷ tags)

unfoldable pub tags_of : Text → List Text
tags_of text = keep truthy (map trim (split_commas text))

abbrev pub effort_choice : Option ReasoningEffort → EffortChoice
effort_choice none = provider_default
effort_choice (some e) = effort e

abbrev pub effort_or_null : EffortChoice → Option ReasoningEffort
effort_or_null provider_default = none
effort_or_null (effort e) = some e

-- `Number`, `String` and `toUpperCase`; `object` is a record of texts as a value of JSON.
pub record Formats (N J : Type 0) : Type 0 where
  pub to_number : Text → N
  pub to_text : N → Text
  pub to_upper_case : Text → Text
  pub object : List (Text × Text) → J

module _ {N J : Type 0} (formats : Formats N J) (json : Json J) where
  unfoldable pub optional_number : Text → Option N
  optional_number value = if truthy (trim value) then some (formats.to_number value) else none

  unfoldable pub number_text : Option N → Text
  number_text none = []
  number_text (some n) = formats.to_text n

  unfoldable pub edit_form : Endpoint N J → EndpointForm
  edit_form endpoint = record {
    api_key = [];
    api_key_max_concurrency = number_text endpoint.api_key_max_concurrency;
    base_url = endpoint.base_url;
    currency = endpoint.currency;
    custom_headers = json.stringify (formats.object endpoint.custom_headers);
    default_request_body = json.stringify endpoint.default_request_body;
    display_name = endpoint.display_name;
    input_cost_per_million = number_text endpoint.input_cost_per_million;
    input_tokens_per_minute = number_text endpoint.input_tokens_per_minute;
    context_length = number_text endpoint.context_length;
    max_concurrency = formats.to_text endpoint.max_concurrency;
    max_output_tokens = number_text endpoint.max_output_tokens;
    model_name = endpoint.model_name;
    notes = or_else endpoint.notes [];
    output_cost_per_million = number_text endpoint.output_cost_per_million;
    output_tokens_per_minute = number_text endpoint.output_tokens_per_minute;
    protocol_profile = endpoint.protocol_profile;
    requests_per_minute = number_text endpoint.requests_per_minute;
    requests_per_second = number_text endpoint.requests_per_second;
    reasoning_effort = effort_choice endpoint.reasoning_effort;
    tags = join_commas endpoint.tags;
    timeout_seconds = formats.to_text endpoint.timeout_seconds;
    tokens_per_minute = number_text endpoint.tokens_per_minute;
  }

  unfoldable pub payload : EndpointForm → J → J → EndpointPayload N J
  payload form body headers = record {
    api_key = some form.api_key;
    api_key_max_concurrency = optional_number form.api_key_max_concurrency;
    base_url = form.base_url;
    currency = formats.to_upper_case form.currency;
    custom_headers = headers;
    default_request_body = body;
    display_name = form.display_name;
    input_cost_per_million = optional_number form.input_cost_per_million;
    input_tokens_per_minute = optional_number form.input_tokens_per_minute;
    context_length = optional_number form.context_length;
    max_concurrency = formats.to_number form.max_concurrency;
    max_output_tokens = optional_number form.max_output_tokens;
    model_name = form.model_name;
    notes = non_empty form.notes;
    output_cost_per_million = optional_number form.output_cost_per_million;
    output_tokens_per_minute = optional_number form.output_tokens_per_minute;
    protocol_profile = form.protocol_profile;
    requests_per_minute = optional_number form.requests_per_minute;
    requests_per_second = optional_number form.requests_per_second;
    reasoning_effort = effort_or_null form.reasoning_effort;
    tags = tags_of form.tags;
    timeout_seconds = formats.to_number form.timeout_seconds;
    tokens_per_minute = optional_number form.tokens_per_minute;
  }

  -- An identifier that is empty counts as none.
  unfoldable pub request_for : Option Text → EndpointForm → J → J → SaveRequest N J
  request_for none form body headers = create_endpoint (payload form body headers)
  request_for (some id) form body headers =
      let whole = payload form body headers in
      if truthy id
      then update_endpoint id
          (if truthy (trim form.api_key) then whole else record whole { api_key = none })
      else create_endpoint whole

  unfoldable pub save_request : Option Text → EndpointForm → SaveRequest N J
  save_request editing form = elim (json.parse form.default_request_body) [
    | none ↦ refused invalid_json
    | some body ↦ elim (json.parse form.custom_headers) [
      | none ↦ refused invalid_json
      | some headers ↦
          if json.is_object body
          then (if json.is_object headers
              then request_for editing form body headers
              else refused headers_must_object)
          else refused body_must_object
    ]
  ]
