-- ===== src/Endpoints/Session.antt =====
-- The state of EndpointsRoute and its events: clicks, submissions, and answers of the service, which
-- come in any order. A dialogue that asks for a confirmation is part of the event.
use llm_evaluation.Prelude.{
  Bool, true, false, not, ◌&&◌, if◌then◌else◌, Option, none, some, List, [], ◌∷◌, map, any, or_else,
  truthy, Text, text_eq, keep,
}
use llm_evaluation.Types.Endpoints.{Endpoint}
use llm_evaluation.Endpoints.{
  EndpointForm, initial_endpoint, Formats, SaveRequest, refused, edit_form, save_request,
}
use llm_evaluation.Prompts.{Json}

pub record Capability : Type 0 where
  pub id : Text
  pub capability_key : Text
  pub user_declared_status : Text
  pub auto_detection_status : Text
  pub effective_status : Text

-- `busy`: which action waits for its answer.
pub data Busy : Type 0 where
  saving sandboxing : Busy
  testing probing : Text → Busy
  declaring : Text → Text → Busy

-- `route_endpoint` is `endpoint` of the query. `R` is the request that a connection test echoes, `S` the result of the sandbox.
pub record State (N J R S : Type 0) : Type 0 where
  pub busy : Option Busy
  pub capabilities : List (Text × List Capability)
  pub editing_endpoint_id : Option Text
  pub endpoints : List (Endpoint N J)
  pub form : EndpointForm
  pub preferred_endpoint_id : Option Text
  pub test_requests : List (Text × R)
  pub sandbox_endpoint_id : Option Text
  pub sandbox_result : Option S
  pub route_endpoint : Option Text

pub data Event (N J R S : Type 0) : Type 0 where
  edit : Endpoint N J → Event N J R S
  cancel_edit : Event N J R S
  change_form : EndpointForm → Event N J R S
  submit : Event N J R S
  created updated : Text → Event N J R S
  listed : List (Endpoint N J) → Event N J R S
  test probe : Text → Event N J R S
  tested : Text → R → Event N J R S
  probed : Text → List Capability → Event N J R S
  declare : Text → Text → Event N J R S
  declared : Text → Capability → Event N J R S
  change_sandbox_endpoint : Text → Event N J R S
  run_sandbox : Event N J R S
  sandboxed : S → Event N J R S
  settled : Event N J R S
  route_changed : Option Text → Event N J R S

-- `{ ...current, [id]: value }` and `const { [id]: _removed, ...remaining } = current`.
unfoldable pub set_entry : {A : Type 0} → Text → A → List (Text × A) → List (Text × A)
set_entry id value [] = (id, value) ∷ []
set_entry id value ((k, v) ∷ m) =
    if text_eq k id then (k, value) ∷ m else (k, v) ∷ set_entry id value m

unfoldable pub remove_entry : {A : Type 0} → Text → List (Text × A) → List (Text × A)
remove_entry id m = keep (λ e. not (text_eq e.0 id)) m

unfoldable pub find_entry : {A : Type 0} → Text → List (Text × A) → Option A
find_entry id [] = none
find_entry id ((k, v) ∷ m) = if text_eq k id then some v else find_entry id m

abbrev pub replace_capability : Capability → Capability → Capability
replace_capability answer item =
    if text_eq item.capability_key answer.capability_key then answer else item

module _ {N J : Type 0} where
  abbrev pub has_endpoint : Text → List (Endpoint N J) → Bool
  has_endpoint id endpoints = any (λ e. text_eq e.id id) endpoints

  abbrev pub first_id : List (Endpoint N J) → Option Text
  first_id [] = none
  first_id (e ∷ endpoints) = some e.id

  -- The effect on the endpoints and the query.
  unfoldable pub requested_endpoint : Option Text → List (Endpoint N J) → Option Text
  requested_endpoint none endpoints = first_id endpoints
  requested_endpoint (some id) endpoints =
      if truthy id && has_endpoint id endpoints then some id else first_id endpoints

  unfoldable pub sandbox_effect : Option Text → List (Endpoint N J) → Option Text → Option Text
  sandbox_effect route [] current = current
  sandbox_effect route (e ∷ endpoints) current = requested_endpoint route (e ∷ endpoints)

  abbrev pub is_refused : SaveRequest N J → Bool
  is_refused (refused error) = true
  is_refused request = false

  module _ {R S : Type 0} (formats : Formats N J) (json : Json J) where
    unfoldable pub step : Event N J R S → State N J R S → State N J R S
    step (edit endpoint) s = record s {
      editing_endpoint_id = some endpoint.id;
      form = edit_form formats json endpoint;
    }
    step cancel_edit s = record s { editing_endpoint_id = none; form = initial_endpoint }
    step (change_form form) s = record s { form = form }
    step submit s = record s {
      busy =
          if is_refused (save_request formats json s.editing_endpoint_id s.form)
          then none
          else some saving;
    }
    step (created id) s = record s {
      preferred_endpoint_id = some id;
      editing_endpoint_id = none;
      form = initial_endpoint;
    }
    step (updated id) s = record s {
      test_requests = remove_entry id s.test_requests;
      editing_endpoint_id = none;
      form = initial_endpoint;
    }
    step (listed endpoints) s = record s {
      endpoints = endpoints;
      sandbox_endpoint_id = sandbox_effect s.route_endpoint endpoints s.sandbox_endpoint_id;
    }
    step (test id) s = record s { busy = some (testing id) }
    step (probe id) s = record s { busy = some (probing id) }
    step (tested id request) s = record s { test_requests = set_entry id request s.test_requests }
    step (probed id detected) s = record s { capabilities = set_entry id detected s.capabilities }
    step (declare id key) s = record s { busy = some (declaring id key) }
    step (declared id answer) s = record s {
      capabilities =
          set_entry id (map (replace_capability answer) (or_else (find_entry id s.capabilities) []))
            s.capabilities;
    }
    step (change_sandbox_endpoint id) s = record s {
      sandbox_endpoint_id = some id;
      sandbox_result = none;
    }
    step run_sandbox s = record s { busy = some sandboxing; sandbox_result = none }
    step (sandboxed result) s = record s { sandbox_result = some result }
    step settled s = record s { busy = none }
    step (route_changed id) s = record s {
      route_endpoint = id;
      sandbox_endpoint_id = sandbox_effect id s.endpoints s.sandbox_endpoint_id;
    }
