-- ===== src/Shell/Examples.antt =====
-- The history of a short visit, with addresses that are cut at the first question mark.
use llm_evaluation.Prelude.{
  ◌≡◌, refl, ap, false, ◌==◌, if◌then◌else◌, none, some, [], ◌∷◌, ◌++◌, Text, codes, text_eq,
  includes,
}
use llm_evaluation.Views.{dashboard, runs}
use llm_evaluation.Routing.{
  SearchParams, PathOptions, workspace_paths, workspace_route, with_query, workspace_tab_ids,
}
use llm_evaluation.Routing.PlainSyntax.{plain_syntax, plain_syntax-laws}
use llm_evaluation.Shell.{Location, ResolveLaw, Workspace, navigate, sync_route}
use llm_evaluation.Shell.History.{IsAt, IsLocated, navigate-IsAt, navigate_idem, sync_route_idem}

abbrev before_query : Text → Text
before_query [] = []
before_query (c ∷ s) = let rest = before_query s in if c == 63 then [] else c ∷ rest

abbrev from_query : Text → Text
from_query [] = []
from_query (c ∷ s) = let rest = from_query s in if c == 63 then c ∷ s else rest

abbrev cut_at_query : Text → Location
cut_at_query href = record { pathname = before_query href; search = from_query href; hash = [] }

cut_at_query-with_query :
    (ps : SearchParams)
    → cut_at_query (with_query plain_syntax [] ps)
      ≡ record { pathname = []; search = with_query plain_syntax [] ps; hash = [] }
unfolding with_query
cut_at_query-with_query [] = refl
cut_at_query-with_query (p ∷ ps) = refl

abbrev behind : Text → Location → Location
behind path l = record l { pathname = path ++ l.pathname }

cut_at_query-ResolveLaw : ResolveLaw plain_syntax cut_at_query
unfolding workspace_paths
cut_at_query-ResolveLaw dashboard ps plain =
    ap (behind (workspace_paths dashboard)) (cut_at_query-with_query ps)
cut_at_query-ResolveLaw view ps plain =
    ap (behind (workspace_paths view)) (cut_at_query-with_query ps)

abbrev home : Workspace
home = record {
  back = [];
  current = record { pathname = codes "/runs"; search = []; hash = [] };
  forward = [];
  route = workspace_route plain_syntax (codes "/runs") [];
}

abbrev run_seven : PathOptions
run_seven = record { dataset_id = none; endpoint_id = none; run_id = some (codes "run-7") }

home-IsLocated : IsLocated cut_at_query home.current
home-IsLocated = record { pathname = refl; search = refl }

navigate-IsAt_example :
    IsAt plain_syntax runs
      (codes "run-details")
      run_seven
      (navigate plain_syntax cut_at_query runs (some (codes "run-details")) run_seven false home)
unfolding text_eq includes workspace_tab_ids
navigate-IsAt_example =
    navigate-IsAt plain_syntax-laws cut_at_query-ResolveLaw runs (codes "run-details") run_seven
      false home refl home-IsLocated

navigate_idem_example :
    let once =
      navigate plain_syntax cut_at_query runs (some (codes "run-details")) run_seven false home in
    navigate plain_syntax cut_at_query runs (some (codes "run-details")) run_seven false once ≡ once
unfolding text_eq includes workspace_tab_ids
navigate_idem_example =
    navigate_idem plain_syntax-laws cut_at_query-ResolveLaw runs (codes "run-details") run_seven
      false home refl home-IsLocated

sync_route_idem_example :
    let once = sync_route plain_syntax home in
    ((sync_route plain_syntax once).current ≡ once.current)
    × ((sync_route plain_syntax once).route ≡ record once.route { replace = false })
    × (once.back ≡ home.back)
    × (once.forward ≡ home.forward)
sync_route_idem_example = sync_route_idem plain_syntax-laws home
