-- ===== src/Routing/Canonical.antt =====
-- The route of a location is canonical: it names a tab of its view, and following it leads nowhere
-- else.
use llm_evaluation.Prelude.{
  ◌≡◌, ◌↔◌, refl, sym, false, not, ◌&&◌, ◌||◌, ◌==◌, ◌∙◌, ap, none, some, [], ◌∷◌, ◌++◌, Text,
  codes, text_eq, text_eq_refl, text_eq_iff, length, drop, drop-append, All, drop_end, arith,
  Option-cases, inl, inr,
}
use mathlib.Core.List.{append-nil}
use llm_evaluation.Views.{WorkspaceView, workspace_views, dashboard}
use llm_evaluation.Routing.{
  SearchSyntax, SearchLaws, IsPlainPair, SearchParams, PathOptions, WorkspaceRoute, workspace_paths,
  workspace_path, workspace_route, route_for, find_view, normalized_path, normalized_search,
  tab_params, set_id, set_run, requested_options, get_param, path_params, with_query,
  default_workspace_tab, valid_run_id, valid_resource_id, on_run, on_dataset, on_sandbox, when,
}
use llm_evaluation.Routing.Params.{
  path_params-IsPlain, get_tab-path_params, requested_options-path_params, get_run-path_params,
  valid_run_id-valid_resource_id, get_dataset-path_params, get_endpoint-path_params,
}
use llm_evaluation.Routing.Tabs.{
  IsTab, IsTab-IsPlain, resolve_tab-IsTab, resolve_tab-tab_param, find_view-normalized_path,
  default_workspace_tab-IsTab,
}

-- The query that `workspacePath` puts behind a path.
abbrev pub query_of : SearchSyntax → WorkspaceView → Text → PathOptions → Text
query_of q view tab o = drop (length (workspace_paths view)) (workspace_path q view tab o)

both_iff :
    (a b c d : Text) → ((not (text_eq a b) || not (text_eq c d)) ≡ false) ↔ ((a ≡ b) × (c ≡ d))
both_iff a b c d = ground (arith, text_eq_iff a b, text_eq_iff c d)

module _ (q : SearchSyntax) where
  query-with_query :
      (path : Text) (ps : SearchParams)
      → drop (length path) (with_query q path ps) ≡ with_query q [] ps
  unfolding with_query
  query-with_query path [] = ap (drop (length path)) (sym (append-nil path)) ∙ drop-append path []
  query-with_query path (p ∷ ps) = drop-append path (b'?' ∷ q.to_string (p ∷ ps))

  normalized_search-with_query :
      (ps : SearchParams) → normalized_search (with_query q [] ps) ≡ with_query q [] ps
  unfolding normalized_search with_query
  normalized_search-with_query [] = refl
  normalized_search-with_query (p ∷ ps) = refl

  pub query_of-path_params :
      (view : WorkspaceView) (tab : Text) (o : PathOptions)
      → query_of q view tab o ≡ with_query q [] (path_params view tab o)
  unfolding workspace_path
  query_of-path_params view tab o = query-with_query (workspace_paths view) (path_params view tab o)

  with_query-append :
      (path : Text) (ps : SearchParams) → with_query q path ps ≡ path ++ with_query q [] ps
  unfolding with_query
  with_query-append path [] = sym (append-nil path)
  with_query-append path (p ∷ ps) = refl

  pub workspace_path-query_of :
      (view : WorkspaceView) (tab : Text) (o : PathOptions)
      → workspace_path q view tab o ≡ workspace_paths view ++ query_of q view tab o
  unfolding workspace_path
  workspace_path-query_of view tab o =
      with_query-append (workspace_paths view) (path_params view tab o)
      ∙ ap (◌++◌ (workspace_paths view)) (sym (query_of-path_params view tab o))

module _ {q : SearchSyntax} (laws : SearchLaws q) where
  parse-with_query : (ps : SearchParams) → All IsPlainPair ps → q.parse (with_query q [] ps) ≡ ps
  unfolding with_query
  parse-with_query [] h = laws.parse_empty
  parse-with_query (p ∷ ps) h = laws.parse-to_string (p ∷ ps) h

  module _ (view : WorkspaceView) (tab : Text) (o : PathOptions) (is_tab : IsTab view tab) where
    parse-query_of : q.parse (query_of q view tab o) ≡ path_params view tab o
    parse-query_of =
        rw (query_of-path_params q view tab o)
          (parse-with_query _ (path_params-IsPlain view tab o (IsTab-IsPlain view tab is_tab)))

    query_of-requested_options :
        query_of q view tab (requested_options view tab (path_params view tab o))
        ≡ query_of q view tab o
    query_of-requested_options =
        rw (query_of-path_params, query_of-path_params, requested_options-path_params)

    normalized_search-query_of : normalized_search (query_of q view tab o) ≡ query_of q view tab o
    normalized_search-query_of =
        rw (query_of-path_params q view tab o) (normalized_search-with_query q _)

    route_for-query_of :
        (pathname : Text)
        → route_for q view pathname (query_of q view tab o) ≡ record {
          view = view;
          tab = tab;
          pathname = workspace_paths view;
          search = query_of q view tab o;
          replace = not (text_eq pathname (workspace_paths view));
        }
    unfolding route_for
    route_for-query_of pathname =
        rw
          (
            normalized_search-query_of, parse-query_of, get_tab-path_params, resolve_tab-tab_param,
            query_of-requested_options, text_eq_refl,
          )
          (ground arith)

    -- A path that the program writes is read as it was meant: whatever slashes are behind it, the
    -- view, the tab and the parameters come back, and without slashes nothing is replaced.
    pub workspace_route-query_of :
        (slashes : Text)
        → drop_end (λ c. c == b'/') slashes ≡ []
        → workspace_route q (workspace_paths view ++ slashes) (query_of q view tab o) ≡ record {
          view = view;
          tab = tab;
          pathname = workspace_paths view;
          search = query_of q view tab o;
          replace = not (text_eq (workspace_paths view ++ slashes) (workspace_paths view));
        }
    unfolding workspace_route
    workspace_route-query_of slashes h =
        rw (find_view-normalized_path view slashes h, workspace_route) (route_for-query_of _)

    -- The location that `workspacePath` writes needs no replacing.
    pub workspace_route-workspace_path :
        workspace_route q (workspace_paths view) (query_of q view tab o) ≡ record {
          view = view;
          tab = tab;
          pathname = workspace_paths view;
          search = query_of q view tab o;
          replace = false;
        }
    unfolding workspace_route drop_end
    workspace_route-workspace_path =
        rw
          (
            rw (append-nil (workspace_paths view)) at (find_view-normalized_path view [] refl),
            workspace_route,
          )
          (rw (route_for-query_of, text_eq_refl))

-- Reading a written path back gives each identifier that is valid and belongs to the tab, and no other.
module _ {q : SearchSyntax} (laws : SearchLaws q) (view : WorkspaceView) (tab : Text)
    (o : PathOptions) where
  pub get_ids-query_of :
      IsTab view tab
      → let ps = q.parse (query_of q view tab o) in
        (get_param (codes "dataset") ps
          ≡ when (on_dataset view tab && valid_resource_id o.dataset_id) o.dataset_id)
        × (get_param (codes "run") ps ≡ when (on_run view tab && valid_run_id o.run_id) o.run_id)
        × (get_param (codes "endpoint") ps
            ≡ when (on_sandbox view tab && valid_resource_id o.endpoint_id) o.endpoint_id)
  get_ids-query_of is_tab =
      rw (parse-query_of laws view tab o is_tab, valid_run_id-valid_resource_id)
        (
          get_dataset-path_params view tab o,
          get_run-path_params view tab o,
          get_endpoint-path_params view tab o,
        )

-- What every route is, whatever the location was.
pub record IsCanonical (q : SearchSyntax) (r : WorkspaceRoute) : Type 0 where
  pub options : PathOptions
  pub is_tab : IsTab r.view r.tab
  pub path : r.pathname ≡ workspace_paths r.view
  pub query : r.search ≡ query_of q r.view r.tab options

module _ {q : SearchSyntax} (laws : SearchLaws q) where
  no_options : PathOptions
  no_options = record { dataset_id = none; endpoint_id = none; run_id = none }

  fallback-query : [] ≡ query_of q dashboard (default_workspace_tab dashboard) no_options
  unfolding no_options path_params tab_params set_id set_run with_query
  fallback-query = rw (query_of-path_params, text_eq_refl)

  -- The route names a tab of its view, its path is the view's, and its search is one that
  -- `workspacePath` writes.
  pub workspace_route-IsCanonical :
      (pathname asked : Text) → IsCanonical q (workspace_route q pathname asked)
  unfolding workspace_route route_for
  workspace_route-IsCanonical pathname asked =
      elim (Option-cases (find_view (normalized_path pathname) workspace_views)) [
        | inl missed ↦
            rw (missed, workspace_route)
              (record {
                options = no_options;
                is_tab = default_workspace_tab-IsTab dashboard;
                path = refl;
                query = fallback-query;
              })
        | inr (view, found) ↦
            rw (found, workspace_route)
              (record { options = _; is_tab = resolve_tab-IsTab _ _; path = refl; query = refl })
      ]

  -- Following a route leads to the same route, with nothing left to replace: the workspace never
  -- redirects twice.
  pub workspace_route_idem :
      (pathname asked : Text)
      → let r = workspace_route q pathname asked in
        workspace_route q r.pathname r.search ≡ record r { replace = false }
  workspace_route_idem pathname asked =
      let r = workspace_route q pathname asked in
      let c = workspace_route-IsCanonical pathname asked in
      rw (c.path, c.query) (workspace_route-workspace_path laws r.view r.tab c.options c.is_tab)

  -- The flag is down exactly when the location is the one that the route names.
  pub replace_iff :
      (pathname asked : Text)
      → let r = workspace_route q pathname asked in
        (r.replace ≡ false) ↔ ((pathname ≡ r.pathname) × (normalized_search asked ≡ r.search))
  unfolding workspace_route route_for drop_end
  replace_iff pathname asked =
      elim (Option-cases (find_view (normalized_path pathname) workspace_views)) [
        | inl missed ↦
            rw (missed, workspace_route)
              (
                λ e. cc,
                λ h.
                    let at_home : find_view (normalized_path (workspace_paths dashboard))
                          workspace_views
                        ≡ some dashboard =
                      rw (append-nil (workspace_paths dashboard)) at
                        (find_view-normalized_path dashboard [] refl) in
                    cc (
                      missed,
                      at_home,
                      ap (λ p. find_view (normalized_path p) workspace_views) h.0,
                    ),
              )
        | inr (view, found) ↦ rw (found, workspace_route) (both_iff _ _ _ _)
      ]
