-- ===== src/Shell.antt =====
-- frontend/src/app/WorkspaceApp.tsx: how the workspace follows and writes the locations of the
-- browser. The browser's history is the entries behind and before the current one. How the browser
-- takes an address apart is a parameter.
pub mod History
mod Examples
use llm_evaluation.Prelude.{
  ◌≡◌, Bool, true, false, if◌then◌else◌, Option, none, some, List, [], ◌∷◌, ◌++◌, or_else, Text,
  text_eq, All,
}
use llm_evaluation.Views.{WorkspaceView}
use llm_evaluation.Routing.{
  SearchSyntax, SearchParams, IsPlainPair, PathOptions, WorkspaceRoute, workspace_paths,
  workspace_path, workspace_route, default_workspace_tab, with_query,
}

pub record Location : Type 0 where
  pub pathname : Text
  pub search : Text
  pub hash : Text

-- What the code relies on: an address of a path of the workspace and a query of plain names and
-- values is taken apart into this path and this query, without a hash.
abbrev pub ResolveLaw : SearchSyntax → (Text → Location) → Type 0
ResolveLaw q resolve =
    (view : WorkspaceView) (ps : SearchParams)
    → All IsPlainPair ps
    → resolve (workspace_paths view ++ with_query q [] ps)
      ≡ record { pathname = workspace_paths view; search = with_query q [] ps; hash = [] }

-- The history, and the route that the workspace shows.
pub record Workspace : Type 0 where
  pub back : List Location
  pub current : Location
  pub forward : List Location
  pub route : WorkspaceRoute

-- `${window.location.pathname}${window.location.search}`.
abbrev pub href_of : Location → Text
href_of l = l.pathname ++ l.search

-- `pushState` and `replaceState`.
pub push_state : Location → Workspace → Workspace
push_state l w = record w { back = w.current ∷ w.back; current = l; forward = [] }

pub replace_state : Location → Workspace → Workspace
replace_state l w = record w { current = l }

module _ (q : SearchSyntax) where
  -- `setRoute(workspaceRoute(window.location.pathname, window.location.search))`.
  pub show_route : Workspace → Workspace
  show_route w = record w { route = workspace_route q w.current.pathname w.current.search }

  pub navigate :
      (Text → Location)
      → (view : WorkspaceView) → Option Text
      → PathOptions
      → (replace : Bool) → Workspace
      → Workspace
  navigate resolve view tab options replace w =
      let href = workspace_path q view (or_else tab (default_workspace_tab view)) options in
      show_route (
        if text_eq (href_of w.current) href
        then w
        else (if replace then replace_state (resolve href) w else push_state (resolve href) w))

  -- `syncRoute`; the address that is written has the path and the search of the route and the hash.
  pub sync_route : Workspace → Workspace
  sync_route w =
      let next = workspace_route q w.current.pathname w.current.search in
      record (if next.replace
        then replace_state
            (record { pathname = next.pathname; search = next.search; hash = w.current.hash }) w
        else w) { route = next }

-- The back button, which moves in the history and makes the workspace follow.
unfoldable pub go_back : SearchSyntax → Workspace → Workspace
go_back q w = elim w.back [
  | [] ↦ w
  | l ∷ ls ↦ sync_route q (record w { back = ls; current = l; forward = w.current ∷ w.forward })
]
