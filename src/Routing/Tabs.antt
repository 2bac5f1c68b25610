-- ===== src/Routing/Tabs.antt =====
-- The tables of routing.ts: paths are found by their own text, and tabs are plain words.
use llm_evaluation.Prelude.{
  ◌≡◌, refl, true, false, ◌==◌, Option, none, some, [], ◌++◌, Text, codes, text_eq, text_eq_sound,
  sym, includes, includes-mem, All, drop_end, drop_end-append_all, arith, Bool-cases, inl, inr, cut,
}
use llm_evaluation.Views.{WorkspaceView, dashboard, workspace_views}
use llm_evaluation.Routing.Params.{tab_param}
use llm_evaluation.Routing.{
  workspace_paths, workspace_tab_ids, default_workspace_tab, is_workspace_tab, find_view,
  normalized_path, IsPlain, resolve_tab, requested_tab,
}

abbrev pub IsTab : WorkspaceView → Text → Type 0
IsTab view tab = includes (workspace_tab_ids view) tab ≡ true

workspace_tab_ids-IsPlain : (view : WorkspaceView) → All IsPlain (workspace_tab_ids view)
unfolding workspace_tab_ids
workspace_tab_ids-IsPlain dashboard = ground arith
workspace_tab_ids-IsPlain _ = ground arith

pub IsTab-IsPlain : (view : WorkspaceView) (tab : Text) → IsTab view tab → IsPlain tab
IsTab-IsPlain view tab h =
    includes-mem IsPlain (workspace_tab_ids view) tab h (workspace_tab_ids-IsPlain view)

pub default_workspace_tab-IsTab : (view : WorkspaceView) → IsTab view (default_workspace_tab view)
unfolding includes text_eq default_workspace_tab workspace_tab_ids
default_workspace_tab-IsTab dashboard = refl
default_workspace_tab-IsTab _ = refl

-- The tab of a route is one of its view's tabs, whatever was asked for.
pub resolve_tab-IsTab :
    (view : WorkspaceView) (asked : Option Text) → IsTab view (resolve_tab view asked)
unfolding resolve_tab is_workspace_tab
resolve_tab-IsTab view none = default_workspace_tab-IsTab view
resolve_tab-IsTab view (some tab) = elim (Bool-cases (includes (workspace_tab_ids view) tab)) [
  | inl e ↦ rw e e
  | inr e ↦ rw e (default_workspace_tab-IsTab view)
]

abbrev alias : Text
alias = codes "launch-evaluation"

workspace_tab_ids-ne-alias :
    (view : WorkspaceView) → All (λ t. text_eq t alias ≡ false) (workspace_tab_ids view)
unfolding workspace_tab_ids text_eq
workspace_tab_ids-ne-alias dashboard = ground arith
workspace_tab_ids-ne-alias _ = ground arith

-- The alias is no tab, so that a tab is never renamed.
requested_tab-IsTab :
    (view : WorkspaceView) (tab : Text) → IsTab view tab → requested_tab view (some tab) ≡ some tab
unfolding requested_tab
requested_tab-IsTab view tab h =
    ground
      (arith, includes-mem (λ t. text_eq t alias ≡ false) _ tab h (workspace_tab_ids-ne-alias view))

requested_tab-none : (view : WorkspaceView) → requested_tab view none ≡ none
unfolding requested_tab
requested_tab-none view = refl

-- A tab of the view, or its absence for the default one, is what a route goes to.
pub resolve_tab-tab_param :
    (view : WorkspaceView) (tab : Text)
    → IsTab view tab
    → resolve_tab view (requested_tab view (tab_param view tab)) ≡ tab
unfolding resolve_tab is_workspace_tab
resolve_tab-tab_param view tab h = elim (Bool-cases (text_eq tab (default_workspace_tab view))) [
  | inl e ↦ rw e (rw (requested_tab-none, sym (text_eq_sound _ _ e)))
  | inr e ↦ rw e (rw requested_tab-IsTab (ground arith))
]

-- A path of the table is found at its own view, also with slashes behind it.
pub find_view-workspace_paths :
    (view : WorkspaceView) → find_view (workspace_paths view) workspace_views ≡ some view
unfolding find_view text_eq workspace_paths
find_view-workspace_paths dashboard = refl
find_view-workspace_paths _ = refl

pub workspace_paths-ne-root :
    (view : WorkspaceView) (s : Text) → text_eq (workspace_paths view ++ s) (codes "/") ≡ false
unfolding text_eq workspace_paths
workspace_paths-ne-root dashboard s = refl
workspace_paths-ne-root _ s = refl

drop_end-workspace_paths :
    (view : WorkspaceView) → drop_end (λ c. c == b'/') (workspace_paths view) ≡ workspace_paths view
unfolding drop_end cut workspace_paths
drop_end-workspace_paths dashboard = refl
drop_end-workspace_paths _ = refl

-- Slashes behind a path do not change the view.
pub find_view-normalized_path :
    (view : WorkspaceView) (slashes : Text)
    → drop_end (λ c. c == b'/') slashes ≡ []
    → find_view (normalized_path (workspace_paths view ++ slashes)) workspace_views ≡ some view
unfolding normalized_path
find_view-normalized_path view slashes h =
    rw
      (
        workspace_paths-ne-root,
        drop_end-append_all _ (workspace_paths view) slashes h,
        drop_end-workspace_paths,
      )
      (find_view-workspace_paths view)
