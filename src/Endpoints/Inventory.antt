-- ===== src/Endpoints/Inventory.antt =====
-- ModelInventory of components/pages/EndpointPages.tsx: which endpoint of the inventory is selected,
-- beside the state of EndpointsRoute. It is mounted while its tab is open. An effect is run at each
-- commit; where React skips one, nothing that it reads has changed.
use llm_evaluation.Prelude.{
  Bool, true, false, ◌&&◌, if◌then◌else◌, Option, none, some, List, [], ◌∷◌, or_option, truthy,
  Text,
}
use llm_evaluation.Types.Endpoints.{Endpoint}
use llm_evaluation.Prompts.{Json}
use llm_evaluation.Endpoints.{Formats}
use llm_evaluation.Endpoints.Session.{State, Event, has_endpoint, first_id}
use llm_evaluation.Endpoints.Session as Session

pub record Page (N J R S : Type 0) : Type 0 where
  pub route : State N J R S
  pub is_mounted : Bool
  pub selected_endpoint_id : Option Text

pub data PageEvent (N J R S : Type 0) : Type 0 where
  routed : Event N J R S → PageEvent N J R S
  open_inventory close_inventory : PageEvent N J R S
  select : Text → PageEvent N J R S

module _ {N J : Type 0} where
  -- The identifier of `selectedEndpoint`.
  unfoldable pub selected_id : List (Endpoint N J) → Option Text → Option Text
  selected_id endpoints none = first_id endpoints
  selected_id endpoints (some id) =
      if has_endpoint id endpoints then some id else first_id endpoints

module _ {N J R S : Type 0} where
  -- Both effects of a commit. They read what was rendered, and what the second sets is set last.
  unfoldable pub prefer : Option Text → Page N J R S → Option Text → Page N J R S
  prefer none p selected = record p { selected_endpoint_id = selected }
  prefer (some id) p selected =
      if truthy id && has_endpoint id p.route.endpoints
      then record p {
        selected_endpoint_id = some id;
        route = record p.route { preferred_endpoint_id = none };
      }
      else record p { selected_endpoint_id = selected }

  unfoldable pub commit : Page N J R S → Page N J R S
  commit p =
      if p.is_mounted
      then prefer p.route.preferred_endpoint_id p
          (selected_id p.route.endpoints p.selected_endpoint_id)
      else p

  module _ (formats : Formats N J) (json : Json J) where
    unfoldable pub handle : PageEvent N J R S → Page N J R S → Page N J R S
    handle (routed e) p = record p { route = Session.step formats json e p.route }
    handle open_inventory p = if p.is_mounted then p else record p {
      is_mounted = true;
      selected_endpoint_id = or_option p.route.preferred_endpoint_id (first_id p.route.endpoints);
    }
    handle close_inventory p = record p { is_mounted = false; selected_endpoint_id = none }
    handle (select id) p = if p.is_mounted then record p { selected_endpoint_id = some id } else p

    unfoldable pub page_step : PageEvent N J R S → Page N J R S → Page N J R S
    page_step e p = commit (handle e p)

    unfoldable pub run : List (PageEvent N J R S) → Page N J R S → Page N J R S
    run [] p = p
    run (e ∷ es) p = run es (page_step e p)
