-- ===== src/Shell/History.antt =====
-- Where the workspace is after it has followed or written a location.
use llm_evaluation.Prelude.{
  ◌≡◌, inl, inr, refl, sym, ap, ◌∙◌, Bool, false, some, [], Text, text_eq, text_eq_iff, Bool-cases,
}
use llm_evaluation.Views.{WorkspaceView}
use llm_evaluation.Routing.{
  SearchSyntax, SearchLaws, PathOptions, workspace_paths, workspace_path, workspace_route,
  path_params,
}
use llm_evaluation.Routing.Params.{path_params-IsPlain}
use llm_evaluation.Routing.Tabs.{IsTab, IsTab-IsPlain}
use llm_evaluation.Routing.Canonical.{
  query_of, query_of-path_params, workspace_path-query_of, workspace_route-workspace_path,
  workspace_route_idem,
}
use llm_evaluation.Shell.{
  Location, ResolveLaw, Workspace, href_of, push_state, replace_state, show_route, navigate,
  sync_route,
}

-- The workspace is at a location and shows its route.
pub record IsAt (q : SearchSyntax) (view : WorkspaceView) (tab : Text) (options : PathOptions)
    (w : Workspace) : Type 0 where
  pub pathname : w.current.pathname ≡ workspace_paths view
  pub search : w.current.search ≡ query_of q view tab options
  pub shown : w.route ≡ record {
    view = view;
    tab = tab;
    pathname = workspace_paths view;
    search = query_of q view tab options;
    replace = false;
  }

-- The location is the one that its own address is taken apart into, but for the hash.
pub record IsLocated (resolve : Text → Location) (l : Location) : Type 0 where
  pub pathname : (resolve (href_of l)).pathname ≡ l.pathname
  pub search : (resolve (href_of l)).search ≡ l.search

resolve-workspace_path :
    (q : SearchSyntax) (resolve : Text → Location)
    → ResolveLaw q resolve
    → (view : WorkspaceView) (tab : Text) (options : PathOptions) → IsTab view tab
    → resolve (workspace_path q view tab options)
      ≡ record { pathname = workspace_paths view; search = query_of q view tab options; hash = [] }
resolve-workspace_path q resolve resolves view tab options is_tab =
    let plain = path_params-IsPlain view tab options (IsTab-IsPlain view tab is_tab) in
    let taken = resolves view (path_params view tab options) plain in
    cc (taken, workspace_path-query_of q view tab options, query_of-path_params q view tab options)

show_route-IsAt :
    {q : SearchSyntax}
    → SearchLaws q
    → (view : WorkspaceView) (tab : Text) (options : PathOptions) (w : Workspace) → IsTab view tab
    → w.current.pathname ≡ workspace_paths view
    → w.current.search ≡ query_of q view tab options
    → IsAt q view tab options (show_route q w)
unfolding show_route
show_route-IsAt laws view tab options w is_tab path query = record {
  pathname = path;
  search = query;
  shown = rw (path, query) (workspace_route-workspace_path laws view tab options is_tab);
}

show_route-eta :
    (q : SearchSyntax) (w : Workspace)
    → w.route ≡ workspace_route q w.current.pathname w.current.search
    → show_route q w ≡ w
unfolding show_route
show_route-eta q w h = ap (λ r. record w { route = r }) (sym h)

navigate-there :
    (q : SearchSyntax) (resolve : Text → Location) (view : WorkspaceView) (tab : Text)
    (options : PathOptions) (replace : Bool) (w : Workspace)
    → href_of w.current ≡ workspace_path q view tab options
    → navigate q resolve view (some tab) options replace w ≡ show_route q w
unfolding navigate
navigate-there q resolve view tab options replace w h =
    rw ((text_eq_iff (href_of w.current) (workspace_path q view tab options)).1 h) refl

module _ {q : SearchSyntax} (laws : SearchLaws q) {resolve : Text → Location}
    (resolves : ResolveLaw q resolve) where
  -- From a location that its address is taken apart into, navigating to a tab of a view puts the
  -- workspace at the location of this tab and shows it, with nothing left to replace.
  pub navigate-IsAt :
      (view : WorkspaceView) (tab : Text) (options : PathOptions) (replace : Bool) (w : Workspace)
      → IsTab view tab
      → IsLocated resolve w.current
      → IsAt q view tab options (navigate q resolve view (some tab) options replace w)
  unfolding navigate push_state replace_state
  navigate-IsAt view tab options replace w is_tab located =
      let href = workspace_path q view tab options in
      let there = resolve-workspace_path q resolve resolves view tab options is_tab in
      elim (Bool-cases (text_eq (href_of w.current) href)) [
        | inl e ↦
            let same = (text_eq_iff (href_of w.current) href).0 e in
            let here : w.current.pathname ≡ workspace_paths view =
              cc (located.pathname, same, there) in
            let asked : w.current.search ≡ query_of q view tab options =
              cc (located.search, same, there) in
            rw e (show_route-IsAt laws view tab options w is_tab here asked)
        | inr e ↦ elim (Bool-cases replace) [
          | inl r ↦
              rw (e, r)
                (show_route-IsAt laws view tab options (replace_state (resolve href) w) is_tab
                  (ap (λ l. l.pathname) there) (ap (λ l. l.search) there))
          | inr r ↦
              rw (e, r)
                (show_route-IsAt laws view tab options (push_state (resolve href) w) is_tab
                  (ap (λ l. l.pathname) there) (ap (λ l. l.search) there))
        ]
      ]

  -- If the current location is the one its address is taken apart into, navigating twice to one tab of
  -- a view changes nothing the second time: the history has one entry for it.
  pub navigate_idem :
      (view : WorkspaceView) (tab : Text) (options : PathOptions) (replace : Bool) (w : Workspace)
      → IsTab view tab
      → IsLocated resolve w.current
      → let once = navigate q resolve view (some tab) options replace w in
        navigate q resolve view (some tab) options replace once ≡ once
  navigate_idem view tab options replace w is_tab located =
      let once = navigate q resolve view (some tab) options replace w in
      let at = navigate-IsAt view tab options replace w is_tab located in
      let back_here : href_of once.current ≡ workspace_path q view tab options =
        cc (at.pathname, at.search, workspace_path-query_of q view tab options) in
      let route = workspace_route-workspace_path laws view tab options is_tab in
      let shown : once.route ≡ workspace_route q once.current.pathname once.current.search =
        cc (at.shown, at.pathname, at.search, route) in
      navigate-there q resolve view tab options replace once back_here ∙ show_route-eta q once shown

-- Following a location a second time keeps the location and the route, with nothing to replace any
-- more, and following it keeps the other entries of the history.
pub sync_route_idem :
    {q : SearchSyntax}
    → SearchLaws q
    → (w : Workspace)
    → let once = sync_route q w in
      ((sync_route q once).current ≡ once.current)
      × ((sync_route q once).route ≡ record once.route { replace = false })
      × (once.back ≡ w.back)
      × (once.forward ≡ w.forward)
unfolding sync_route replace_state
sync_route_idem {q} laws w =
    let r = workspace_route q w.current.pathname w.current.search in
    let again = workspace_route_idem laws w.current.pathname w.current.search in
    elim (Bool-cases r.replace) [
      | inl e ↦ rw (e, again) (refl, refl, refl, refl)
      | inr e ↦ rw (e, e) (refl, refl, refl, refl)
    ]
