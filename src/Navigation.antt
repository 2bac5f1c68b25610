-- ===== src/Navigation.antt =====
-- frontend/src/dashboard/navigation.ts: the groups of the navigation. A view without an item or a
-- group, which throws in the source, is `none`.
pub mod Places
use llm_evaluation.Prelude.{Bool, Option, none, some, List, [], ◌∷◌, any, find, concat, map}
use llm_evaluation.Views.{
  WorkspaceView, dashboard, guide, models, datasets, prompts, runs, leaderboard, analysis, settings,
  view_is,
}

pub data NavigationGroupId : Type 0 where
  overview configure operations insights system : NavigationGroupId

pub record NavigationGroup : Type 0 where
  pub id : NavigationGroupId
  pub items : List WorkspaceView

abbrev group : NavigationGroupId → List WorkspaceView → NavigationGroup
group id items = record { id = id; items = items }

pub navigation_groups : List NavigationGroup
navigation_groups =
    group overview (dashboard ∷ guide ∷ [])
    ∷ group configure (models ∷ datasets ∷ prompts ∷ [])
    ∷ group operations (runs ∷ leaderboard ∷ [])
    ∷ group insights (analysis ∷ [])
    ∷ group system (settings ∷ [])
    ∷ []

pub navigation_items : List WorkspaceView
navigation_items = concat (map (λ g. g.items) navigation_groups)

pub navigation_item : WorkspaceView → Option WorkspaceView
navigation_item view = find (λ item. view_is item view) navigation_items

pub navigation_group_for : WorkspaceView → Option NavigationGroup
navigation_group_for view = find (λ g. any (λ item. view_is item view) g.items) navigation_groups
