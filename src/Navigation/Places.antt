-- ===== src/Navigation/Places.antt =====
-- Every view has its place in the navigation.
use llm_evaluation.Prelude.{◌≡◌, refl, some, [], ◌∷◌, any, keep}
use llm_evaluation.Views.{WorkspaceView, view_is, dashboard}
use llm_evaluation.Navigation.{
  NavigationGroup, navigation_groups, navigation_items, navigation_item, navigation_group_for,
}

-- Neither lookup throws: each view has its item and a group that lists it, and no other group does.
navigation_group_for-total :
    (view : WorkspaceView)
    → (navigation_item view ≡ some view)
      × ((group : NavigationGroup) × (navigation_group_for view ≡ some group)
          × (keep (λ g. any (λ item. view_is item view) g.items) navigation_groups ≡ group ∷ []))
unfolding navigation_item navigation_group_for navigation_items navigation_groups
navigation_group_for-total dashboard = (refl, (_, refl, refl))
navigation_group_for-total _ = (refl, (_, refl, refl))
