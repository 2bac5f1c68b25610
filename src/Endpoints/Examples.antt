-- ===== src/Endpoints/Examples.antt =====
-- An endpoint that is edited, one that is created, and a sandbox whose answer is late. Numbers are
-- zero and one, a value of JSON is a text behind a brace.
use llm_evaluation.Prelude.{
  ◌≡◌, refl, Bool, true, false, ◌==◌, if◌then◌else◌, Option, none, some, List, [], ◌∷◌, any, Text,
  codes, text_eq, trim, is_space, drop_start, drop_end, cut,
}
use llm_evaluation.Types.Endpoints.{Endpoint, ProtocolProfile, ReasoningEffort, EndpointStatus}
use llm_evaluation.Prompts.{Json}
use llm_evaluation.Endpoints.{
  Formats, initial_endpoint, update_endpoint, refused, body_must_object, tags_of, split_commas,
  join_commas, optional_number, number_text, edit_form, payload, request_for, save_request,
}
use llm_evaluation.Endpoints.RoundTrip.{same_endpoint, IsReadBack, IsStable, save_request-edit_form}
use llm_evaluation.Endpoints.Session.{State, Event, requested_endpoint, sandbox_effect}
use llm_evaluation.Endpoints.Session as Session
use llm_evaluation.Endpoints.Inventory.{Page, PageEvent, routed, open_inventory, run}
use llm_evaluation.Endpoints.Commit.{IsShown}
use llm_evaluation.Endpoints.Preferred.{run-IsShown}

abbrev read : Text → Option Text
read [] = none
read (c ∷ s) = if c == 123 then some s else none

abbrev braced : Json Text
braced = record {
  parse = read;
  stringify = λ value. 123 ∷ value;
  array = λ values. [];
  items = λ value. none;
  is_object = λ value. text_eq value (codes "}");
}

abbrev digits : Formats Bool Text
digits = record {
  to_number = λ text. text_eq text (codes "1");
  to_text = λ n. if n then codes "1" else codes "0";
  to_upper_case = λ text. text;
  object = λ entries. codes "}";
}

abbrev local_model : Endpoint Bool Text
local_model = record {
  id = codes "e1";
  display_name = codes "Local";
  base_url = codes "http://localhost";
  model_name = codes "m";
  protocol_profile = ProtocolProfile.ollama_chat;
  api_key_mask = codes "***";
  custom_headers = [];
  default_request_body = codes "}";
  reasoning_effort = some ReasoningEffort.low;
  context_length = some true;
  max_output_tokens = none;
  timeout_seconds = true;
  status = EndpointStatus.available;
  max_concurrency = true;
  requests_per_second = none;
  requests_per_minute = some false;
  tokens_per_minute = none;
  input_tokens_per_minute = none;
  output_tokens_per_minute = none;
  input_cost_per_million = none;
  output_cost_per_million = none;
  currency = codes "USD";
  tags = codes "fast" ∷ codes "at home" ∷ [];
  notes = some (codes "n");
  last_connection_error = none;
  api_key_max_concurrency = none;
}

program : Unit {0}
unfolding text_eq trim is_space drop_start drop_end cut tags_of split_commas join_commas
    optional_number number_text edit_form payload request_for save_request Session.step
    requested_endpoint sandbox_effect
program = tt

digits-IsReadBack : IsReadBack digits braced
unfolding program
digits-IsReadBack true = (refl, refl)
digits-IsReadBack false = (refl, refl)

local_model-IsStable : IsStable digits braced local_model
unfolding program
local_model-IsStable = record {
  identified = refl;
  upper = refl;
  tags = ((refl, refl, refl), ((refl, refl, refl), tt));
  notes = refl;
  body = refl;
  headers = refl;
}

save_request-edit_form_example :
    save_request digits braced (some (codes "e1")) (edit_form digits braced local_model)
    ≡ update_endpoint (codes "e1") (same_endpoint digits braced local_model)
save_request-edit_form_example =
    save_request-edit_form digits braced local_model digits-IsReadBack (λ value. refl)
      local_model-IsStable

no_object :
    save_request digits braced none
      (record initial_endpoint { default_request_body = codes "{1"; custom_headers = codes "{}" })
    ≡ refused body_must_object
unfolding program
no_object = refl

abbrev opened : State Bool Text Text Text
opened = record {
  busy = none;
  capabilities = [];
  editing_endpoint_id = none;
  endpoints = [];
  form = initial_endpoint;
  preferred_endpoint_id = none;
  test_requests = [];
  sandbox_endpoint_id = none;
  sandbox_result = none;
  route_endpoint = none;
}

abbrev form_tab : Page Bool Text Text Text
form_tab = record { route = opened; is_mounted = false; selected_endpoint_id = none }

abbrev afterwards : List (PageEvent Bool Text Text Text)
afterwards =
    routed Event.settled
    ∷ open_inventory
    ∷ routed (Event.listed (record local_model { id = codes "e0" } ∷ local_model ∷ []))
    ∷ []

among :
    any (λ e. text_eq e.id (codes "e1")) (record local_model { id = codes "e0" } ∷ local_model ∷ [])
    ≡ true
unfolding program
among = refl

run-IsShown_example :
    IsShown
      (codes "e1")
      (run digits braced (routed (Event.created (codes "e1")) ∷ afterwards) form_tab)
run-IsShown_example =
    run-IsShown (codes "e1") digits braced afterwards form_tab refl (tt, (tt, (among, tt))) refl
      refl

-- The answer for one endpoint arrives when another one is selected, and is shown beside it.
late_sandbox :
    let s = Session.step digits braced (Event.sandboxed (codes "answer of e1")) (
      Session.step digits braced (Event.change_sandbox_endpoint (codes "e2")) (
        Session.step digits braced Event.run_sandbox
          (Session.step digits braced (Event.change_sandbox_endpoint (codes "e1")) opened))) in
    (s.sandbox_endpoint_id ≡ some (codes "e2")) × (s.sandbox_result ≡ some (codes "answer of e1"))
unfolding program
late_sandbox = (refl, refl)
