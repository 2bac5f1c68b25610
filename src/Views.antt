-- ===== src/Views.antt =====
-- The workspace views and navigation groups of frontend/src/i18n/catalog.ts.
use llm_evaluation.Prelude.{ℕ, Bool, ◌==◌, List, [], ◌∷◌}

pub data WorkspaceView : Type 0 where
  dashboard guide models datasets prompts runs leaderboard analysis settings : WorkspaceView

abbrev pub workspace_views : List WorkspaceView
workspace_views =
    dashboard ∷ guide ∷ models ∷ datasets ∷ prompts ∷ runs ∷ leaderboard ∷ analysis ∷ settings ∷ []

abbrev view_index : WorkspaceView → ℕ
view_index dashboard = 0
view_index guide = 1
view_index models = 2
view_index datasets = 3
view_index prompts = 4
view_index runs = 5
view_index leaderboard = 6
view_index analysis = 7
view_index settings = 8

-- `view === other`.
abbrev pub view_is : WorkspaceView → WorkspaceView → Bool
view_is v w = view_index v == view_index w
