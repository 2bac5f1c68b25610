-- ===== src/Routing.antt =====
-- frontend/src/dashboard/routing.ts: the paths, tabs and query parameters of the workspace.
-- `URLSearchParams` is the browser's list of names and values; how it reads and writes the text of
-- a query string is the parameter `SearchSyntax`.
pub mod Params
pub mod Tabs
pub mod Canonical
pub mod PlainSyntax
mod Examples
use llm_evaluation.Prelude.{
  ℕ, ◌≤◌, ◌≡◌, Bool, true, false, not, ◌&&◌, ◌||◌, ◌==◌, leb, if◌then◌else◌, Option, none, some,
  List, [], ◌∷◌, ◌++◌, Text, codes, text_eq, includes, truthy, length, drop, all, All, drop_end,
}
use llm_evaluation.Views.{
  WorkspaceView, dashboard, guide, models, datasets, prompts, runs, leaderboard, analysis, settings,
  workspace_views, view_is,
}

unfoldable pub workspace_paths : WorkspaceView → Text
workspace_paths dashboard = codes "/dashboard"
workspace_paths guide = codes "/guide"
workspace_paths models = codes "/models"
workspace_paths datasets = codes "/datasets"
workspace_paths prompts = codes "/prompts"
workspace_paths runs = codes "/runs"
workspace_paths leaderboard = codes "/leaderboard"
workspace_paths analysis = codes "/analysis"
workspace_paths settings = codes "/settings"

unfoldable pub workspace_tab_ids : WorkspaceView → List Text
workspace_tab_ids dashboard = codes "summary" ∷ codes "evaluations" ∷ codes "readiness" ∷ []
workspace_tab_ids guide =
    codes "getting-started" ∷ codes "prepare-data" ∷ codes "run-and-analyze" ∷ []
workspace_tab_ids models = codes "model-inventory" ∷ codes "add-endpoint" ∷ codes "sandbox" ∷ []
workspace_tab_ids datasets = codes "dataset-inventory" ∷ codes "register-dataset" ∷ []
workspace_tab_ids prompts = codes "prompt-inventory" ∷ codes "new-prompt-package" ∷ []
workspace_tab_ids runs =
    codes "run-inventory"
    ∷ codes "quick-start"
    ∷ codes "dataset-evaluation"
    ∷ codes "run-details"
    ∷ []
workspace_tab_ids leaderboard = codes "rankings" ∷ []
workspace_tab_ids analysis = codes "evidence-matrix" ∷ codes "compare-runs" ∷ []
workspace_tab_ids settings = codes "health" ∷ codes "preferences" ∷ []

-- `ids[0]`; every view has a tab.
abbrev first_id : List Text → Text
first_id [] = []
first_id (t ∷ ts) = t

pub default_workspace_tab : WorkspaceView → Text
unfolding workspace_tab_ids
default_workspace_tab view = first_id (workspace_tab_ids view)

pub is_workspace_tab : WorkspaceView → Option Text → Bool
is_workspace_tab view none = false
is_workspace_tab view (some value) = includes (workspace_tab_ids view) value

-- /^[A-Za-z0-9_-]{1,200}$/
abbrev pub is_id_char : ℕ → Bool
is_id_char c =
    (leb b'A' c && leb c b'Z')
    || (leb b'a' c && leb c b'z')
    || (leb b'0' c && leb c b'9')
    || c == b'_'
    || c == b'-'

pub valid_resource_id : Option Text → Bool
valid_resource_id none = false
valid_resource_id (some value) =
    leb 1 (length value) && leb (length value) 200 && all is_id_char value

pub valid_run_id : Option Text → Bool
valid_run_id none = false
valid_run_id (some value) = leb 1 (length value) && leb (length value) 200 && all is_id_char value

-- `params.get(name)` and `params.set(name, value)` on the list of pairs.
abbrev pub SearchParams : Type 0
SearchParams = List (Text × Text)

pub get_param : Text → SearchParams → Option Text
get_param name [] = none
get_param name ((n, v) ∷ ps) = if text_eq n name then some v else get_param name ps

pub delete_param : Text → SearchParams → SearchParams
delete_param name [] = []
delete_param name ((n, v) ∷ ps) =
    if text_eq n name then delete_param name ps else (n, v) ∷ delete_param name ps

pub set_param : Text → Text → SearchParams → SearchParams
unfolding delete_param
set_param name value [] = (name, value) ∷ []
set_param name value ((n, v) ∷ ps) =
    if text_eq n name
    then (name, value) ∷ delete_param name ps
    else (n, v) ∷ set_param name value ps

-- `new URLSearchParams(text)` and `params.toString()`.
pub record SearchSyntax : Type 0 where
  pub parse : Text → SearchParams
  pub to_string : SearchParams → Text

-- A name or value of letters, digits, `-` and `_` is written as it stands.
abbrev pub IsPlain : Text → Type 0
IsPlain s = all is_id_char s ≡ true

abbrev pub IsPlainPair : Text × Text → Type 0
IsPlainPair p = IsPlain p.0 × IsPlain p.1

-- What the code relies on: an empty query has no parameters, and a query string written from plain
-- names and values, behind its `?`, is read back.
pub record SearchLaws (q : SearchSyntax) : Type 0 where
  pub parse_empty : q.parse [] ≡ []
  pub parse-to_string :
      (ps : SearchParams) → All IsPlainPair ps → q.parse (b'?' ∷ q.to_string ps) ≡ ps

pub record PathOptions : Type 0 where
  pub dataset_id : Option Text
  pub endpoint_id : Option Text
  pub run_id : Option Text

pub record WorkspaceRoute : Type 0 where
  pub view : WorkspaceView
  pub tab : Text
  pub pathname : Text
  pub search : Text
  pub replace : Bool

-- `if (wanted && valid(value)) params.set(name, value)`.
pub set_id : Bool → Text → Option Text → SearchParams → SearchParams
set_id wanted name none ps = ps
set_id wanted name (some value) ps =
    if wanted && valid_resource_id (some value) then set_param name value ps else ps

pub set_run : Bool → Option Text → SearchParams → SearchParams
set_run wanted none ps = ps
set_run wanted (some value) ps =
    if wanted && valid_run_id (some value) then set_param (codes "run") value ps else ps

-- The tabs that carry a resource.
pub on_dataset : WorkspaceView → Text → Bool
on_dataset view tab = view_is view runs && text_eq tab (codes "dataset-evaluation")

pub on_run : WorkspaceView → Text → Bool
on_run view tab = view_is view runs && text_eq tab (codes "run-details")

pub on_sandbox : WorkspaceView → Text → Bool
on_sandbox view tab = view_is view models && text_eq tab (codes "sandbox")

pub tab_params : WorkspaceView → Text → SearchParams
tab_params view tab =
    if text_eq tab (default_workspace_tab view) then [] else set_param (codes "tab") tab []

pub path_params : WorkspaceView → Text → PathOptions → SearchParams
path_params view tab options =
    let tabbed = tab_params view tab in
    let dataset = set_id (on_dataset view tab) (codes "dataset") options.dataset_id tabbed in
    let run = set_run (on_run view tab) options.run_id dataset in
    set_id (on_sandbox view tab) (codes "endpoint") options.endpoint_id run

-- `params.size ? `${pathname}?${params.toString()}` : pathname`.
unfoldable pub with_query : SearchSyntax → Text → SearchParams → Text
with_query q pathname [] = pathname
with_query q pathname (p ∷ ps) = pathname ++ b'?' ∷ q.to_string (p ∷ ps)

pub workspace_path : SearchSyntax → WorkspaceView → Text → PathOptions → Text
workspace_path q view tab options =
    with_query q (workspace_paths view) (path_params view tab options)

-- The first view of the table with this path.
pub find_view : Text → List WorkspaceView → Option WorkspaceView
find_view path [] = none
find_view path (v ∷ vs) = if text_eq path (workspace_paths v) then some v else find_view path vs

-- `pathname.replace(/\/+$/, "")`, but for the root.
pub normalized_path : Text → Text
normalized_path pathname =
    if text_eq pathname (codes "/") then codes "/" else drop_end (λ c. c == b'/') pathname

-- `search && !search.startsWith("?") ? `?${search}` : search`.
pub normalized_search : Text → Text
normalized_search [] = []
normalized_search (c ∷ s) = if c == b'?' then c ∷ s else b'?' ∷ c ∷ s

-- The alias of the old tab name.
pub requested_tab : WorkspaceView → Option Text → Option Text
requested_tab view none = none
requested_tab view (some tab) =
    if view_is view runs && text_eq tab (codes "launch-evaluation")
    then some (codes "quick-start")
    else some tab

pub resolve_tab : WorkspaceView → Option Text → Text
resolve_tab view none = default_workspace_tab view
resolve_tab view (some tab) =
    if is_workspace_tab view (some tab) then tab else default_workspace_tab view

-- `cond ? value : undefined`.
abbrev pub when : Bool → Option Text → Option Text
when true value = value
when false value = none

pub requested_options : WorkspaceView → Text → SearchParams → PathOptions
requested_options view tab ps =
    let dataset = get_param (codes "dataset") ps in
    let run = get_param (codes "run") ps in
    let endpoint = get_param (codes "endpoint") ps in
    record {
      dataset_id = when (on_dataset view tab && valid_resource_id dataset) dataset;
      run_id = when (on_run view tab && valid_run_id run) run;
      endpoint_id = when (on_sandbox view tab && valid_resource_id endpoint) endpoint;
    }

pub route_for : SearchSyntax → WorkspaceView → Text → Text → WorkspaceRoute
route_for q view pathname search =
    let path = workspace_paths view in
    let asked = normalized_search search in
    let ps = q.parse asked in
    let tab = resolve_tab view (requested_tab view (get_param (codes "tab") ps)) in
    let canonical =
      drop (length path) (workspace_path q view tab (requested_options view tab ps)) in
    record {
      view = view;
      tab = tab;
      pathname = path;
      search = canonical;
      replace = not (text_eq pathname path) || not (text_eq asked canonical);
    }

abbrev pub fallback_route : WorkspaceRoute
fallback_route = record {
  view = dashboard;
  tab = default_workspace_tab dashboard;
  pathname = workspace_paths dashboard;
  search = [];
  replace = true;
}

pub workspace_route : SearchSyntax → Text → Text → WorkspaceRoute
workspace_route q pathname search = elim (find_view (normalized_path pathname) workspace_views) [
  | none ↦ fallback_route
  | some view ↦ route_for q view pathname search
]
