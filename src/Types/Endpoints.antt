-- ===== src/Types/Endpoints.antt =====
-- The endpoint record of frontend/src/features/endpoints/types.ts.
use llm_evaluation.Prelude.{Option, List, Text}

pub data ProtocolProfile : Type 0 where
  openai_chat_completions openai_responses anthropic_messages : ProtocolProfile
  gemini_generate_content azure_openai_chat_completions : ProtocolProfile
  ollama_chat custom_http_json : ProtocolProfile

pub data ReasoningEffort : Type 0 where
  low medium high : ReasoningEffort

pub data EndpointStatus : Type 0 where
  unverified available unavailable : EndpointStatus

pub record Endpoint (N J : Type 0) : Type 0 where
  pub id : Text
  pub display_name : Text
  pub base_url : Text
  pub model_name : Text
  pub protocol_profile : ProtocolProfile
  pub api_key_mask : Text
  pub custom_headers : List (Text × Text)
  pub default_request_body : J
  pub reasoning_effort : Option ReasoningEffort
  pub context_length : Option N
  pub max_output_tokens : Option N
  pub timeout_seconds : N
  pub status : EndpointStatus
  pub max_concurrency : N
  pub requests_per_second : Option N
  pub requests_per_minute : Option N
  pub tokens_per_minute : Option N
  pub input_tokens_per_minute : Option N
  pub output_tokens_per_minute : Option N
  pub input_cost_per_million : Option N
  pub output_cost_per_million : Option N
  pub currency : Text
  pub tags : List Text
  pub notes : Option Text
  pub last_connection_error : Option Text
  pub api_key_max_concurrency : Option N
