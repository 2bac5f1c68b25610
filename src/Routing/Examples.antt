-- ===== src/Routing/Examples.antt =====
-- routing.ts at concrete locations, some of them from frontend/src/dashboard/routing.test.ts.
use llm_evaluation.Prelude.{
  ◌≡◌, ◌↔◌, refl, true, false, not, ◌&&◌, none, some, ◌++◌, codes, text_eq, includes, drop_end, cut,
}
use llm_evaluation.Views.{runs}
use llm_evaluation.Routing.{
  PathOptions, workspace_paths, workspace_path, workspace_route, workspace_tab_ids,
  default_workspace_tab, is_workspace_tab, valid_resource_id, valid_run_id, get_param, delete_param,
  set_param, set_id, set_run, on_dataset, on_run, on_sandbox, tab_params, path_params, with_query,
  find_view, normalized_path, normalized_search, requested_tab, resolve_tab, requested_options,
  route_for, when,
}
use llm_evaluation.Routing.PlainSyntax.{plain_syntax, plain_syntax-laws}
use llm_evaluation.Routing.Canonical.{
  query_of, IsCanonical, get_ids-query_of, workspace_route-query_of, workspace_route-IsCanonical,
  workspace_route_idem, replace_iff,
}

program : Unit {0}
unfolding text_eq includes drop_end cut workspace_paths workspace_path workspace_route
    workspace_tab_ids default_workspace_tab is_workspace_tab valid_resource_id valid_run_id
    get_param delete_param set_param set_id set_run on_dataset on_run on_sandbox tab_params
    path_params with_query find_view normalized_path normalized_search requested_tab resolve_tab
    requested_options route_for plain_syntax
program = tt

abbrev none_given : PathOptions
none_given = record { dataset_id = none; endpoint_id = none; run_id = none }

abbrev run_seven : PathOptions
run_seven = record none_given { run_id = some (codes "run-7") }

run_path :
    workspace_path plain_syntax runs (codes "run-details") run_seven
    ≡ codes "/runs?tab=run-details&run=run-7"
unfolding program
run_path = refl

-- The old tab name, and slashes behind the path.
legacy_tab :
    workspace_route plain_syntax (codes "/runs//") (codes "tab=launch-evaluation") ≡ record {
      view = runs;
      tab = codes "quick-start";
      pathname = codes "/runs";
      search = codes "?tab=quick-start";
      replace = true;
    }
unfolding program
legacy_tab = refl

-- A run that is not an identifier is dropped.
bad_run :
    (workspace_route plain_syntax (codes "/runs") (codes "?tab=run-details&run=../x")).search
    ≡ codes "?tab=run-details"
unfolding program
bad_run = refl

workspace_route-query_of_example :
    workspace_route plain_syntax
      (workspace_paths runs ++ codes "//")
      (query_of plain_syntax runs (codes "run-details") run_seven)
    ≡ record {
      view = runs;
      tab = codes "run-details";
      pathname = workspace_paths runs;
      search = query_of plain_syntax runs (codes "run-details") run_seven;
      replace = not (text_eq (workspace_paths runs ++ codes "//") (workspace_paths runs));
    }
unfolding program
workspace_route-query_of_example =
    workspace_route-query_of plain_syntax-laws runs (codes "run-details") run_seven refl
      (codes "//") refl

get_ids-query_of_example :
    let ps = plain_syntax.parse (query_of plain_syntax runs (codes "run-details") run_seven) in
    (get_param (codes "dataset") ps
      ≡ when (on_dataset runs (codes "run-details") && valid_resource_id none) none)
    × (get_param (codes "run") ps
        ≡ when
            (on_run runs (codes "run-details") && valid_run_id (some (codes "run-7")))
            (some (codes "run-7")))
    × (get_param (codes "endpoint") ps
        ≡ when (on_sandbox runs (codes "run-details") && valid_resource_id none) none)
unfolding program
get_ids-query_of_example =
    get_ids-query_of plain_syntax-laws runs (codes "run-details") run_seven refl

workspace_route-IsCanonical_example :
    IsCanonical plain_syntax (workspace_route plain_syntax (codes "/nowhere") (codes "?tab=x"))
workspace_route-IsCanonical_example =
    workspace_route-IsCanonical plain_syntax-laws (codes "/nowhere") (codes "?tab=x")

workspace_route_idem_example :
    let r = workspace_route plain_syntax (codes "/runs/") (codes "tab=launch-evaluation") in
    workspace_route plain_syntax r.pathname r.search ≡ record r { replace = false }
workspace_route_idem_example =
    workspace_route_idem plain_syntax-laws (codes "/runs/") (codes "tab=launch-evaluation")

replace_iff_example :
    let r = workspace_route plain_syntax (codes "/runs/") (codes "tab=quick-start") in
    (r.replace ≡ false)
    ↔ ((codes "/runs/" ≡ r.pathname) × (normalized_search (codes "tab=quick-start") ≡ r.search))
replace_iff_example = replace_iff plain_syntax-laws (codes "/runs/") (codes "tab=quick-start")
