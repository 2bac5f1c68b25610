-- ===== src/Routing/Params.antt =====
-- Reading the parameters of a query after they have been set.
use llm_evaluation.Prelude.{
  ◌≡◌, refl, Bool, true, false, ◌&&◌, if◌then◌else◌, Option, none, some, [], ◌∷◌, Text, codes,
  text_eq, text_eq_iff, length, all, All, arith, Bool-cases, inl, inr, leb, and-split, or_option,
  or_option-none,
}
use llm_evaluation.Views.{WorkspaceView}
use llm_evaluation.Routing.{
  SearchParams, get_param, set_param, delete_param, IsPlain, IsPlainPair, valid_resource_id,
  valid_run_id, set_id, set_run, requested_options, on_dataset, is_id_char, on_run, tab_params,
  on_sandbox, path_params, PathOptions, default_workspace_tab, when,
}

get_param-delete_param :
    (j k : Text) (ps : SearchParams)
    → text_eq k j ≡ false
    → get_param j (delete_param k ps) ≡ get_param j ps
unfolding get_param delete_param
get_param-delete_param j k [] h = refl
get_param-delete_param j k ((n, v) ∷ ps) h =
    ground (arith, text_eq_iff n k, text_eq_iff n j, text_eq_iff k j, get_param-delete_param j k ps)

-- What is set is read back, and nothing else changes.
pub get_param-set_param :
    (j k v : Text) (ps : SearchParams)
    → get_param j (set_param k v ps) ≡ (if text_eq k j then some v else get_param j ps)
unfolding get_param set_param
get_param-set_param j k v [] = refl
get_param-set_param j k v ((n, w) ∷ ps) = ground (
  arith,
  text_eq_iff n k,
  text_eq_iff n j,
  text_eq_iff k j,
  get_param-set_param j k v ps,
  get_param-delete_param j k ps,
)

All-delete_param :
    (k : Text) (ps : SearchParams) → All IsPlainPair ps → All IsPlainPair (delete_param k ps)
unfolding delete_param
All-delete_param k [] h = tt
All-delete_param k ((n, w) ∷ ps) (p, h) = elim (Bool-cases (text_eq n k)) [
  | inl e ↦ rw e (All-delete_param k ps h)
  | inr e ↦ rw e (p, All-delete_param k ps h)
]

All-set_param :
    (k v : Text) (ps : SearchParams)
    → IsPlain k
    → IsPlain v
    → All IsPlainPair ps
    → All IsPlainPair (set_param k v ps)
unfolding set_param
All-set_param k v [] pk pv h = ((pk, pv), tt)
All-set_param k v ((n, w) ∷ ps) pk pv (p, h) = elim (Bool-cases (text_eq n k)) [
  | inl e ↦ rw e ((pk, pv), All-delete_param k ps h)
  | inr e ↦ rw e (p, All-set_param k v ps pk pv h)
]

and-third : (a b c : Bool) → (a && b && c) ≡ true → c ≡ true
and-third a b c h = ground arith

valid_resource_id-IsPlain : (v : Text) → valid_resource_id (some v) ≡ true → IsPlain v
unfolding valid_resource_id
valid_resource_id-IsPlain v h =
    and-third (leb 1 (length v)) (leb (length v) 200) (all is_id_char v) h

-- The two tests of an identifier are one.
pub valid_run_id-valid_resource_id : (o : Option Text) → valid_run_id o ≡ valid_resource_id o
unfolding valid_resource_id valid_run_id
valid_run_id-valid_resource_id none = refl
valid_run_id-valid_resource_id (some v) = refl

set_run-set_id :
    (w : Bool) (o : Option Text) (ps : SearchParams) → set_run w o ps ≡ set_id w (codes "run") o ps
unfolding set_run set_id
set_run-set_id w none ps = refl
set_run-set_id w (some v) ps = rw (valid_run_id-valid_resource_id (some v))

-- The value that `set_id` writes.
abbrev pub sent : Bool → Option Text → Option Text
sent w o = when (w && valid_resource_id o) o

get_param-set_id :
    (j k : Text) (w : Bool) (o : Option Text) (ps : SearchParams)
    → get_param j (set_id w k o ps)
      ≡ (if text_eq k j then or_option (sent w o) (get_param j ps) else get_param j ps)
unfolding set_id valid_resource_id
get_param-set_id j k w none ps = ground arith
get_param-set_id j k w (some v) ps = ground (arith, get_param-set_param j k v ps)

All-set_id :
    (k : Text) (w : Bool) (o : Option Text) (ps : SearchParams)
    → IsPlain k
    → All IsPlainPair ps
    → All IsPlainPair (set_id w k o ps)
unfolding set_id
All-set_id k w none ps pk h = h
All-set_id k w (some v) ps pk h = elim (Bool-cases (w && valid_resource_id (some v))) [
  | inl e ↦ rw e (All-set_param k v ps pk (valid_resource_id-IsPlain v (and-split w _ e).1) h)
  | inr e ↦ rw e h
]

tab_params-IsPlain :
    (view : WorkspaceView) (tab : Text) → IsPlain tab → All IsPlainPair (tab_params view tab)
unfolding tab_params
tab_params-IsPlain view tab plain = elim (Bool-cases (text_eq tab (default_workspace_tab view))) [
  | inl e ↦ rw e tt
  | inr e ↦ rw e (All-set_param (codes "tab") tab [] refl plain tt)
]

-- The parameters of a path are plain, if the tab is.
pub path_params-IsPlain :
    (view : WorkspaceView) (tab : Text) (o : PathOptions)
    → IsPlain tab
    → All IsPlainPair (path_params view tab o)
unfolding path_params
path_params-IsPlain view tab o plain = All-set_id (codes "endpoint") _ o.endpoint_id _ refl (
    rw set_run-set_id (
      All-set_id (codes "run") _ o.run_id _ refl
        (All-set_id (codes "dataset") _ o.dataset_id _ refl (tab_params-IsPlain view tab plain))))

abbrev pub layer : Text → Text → Option Text → Option Text → Option Text
layer k j o below = if text_eq k j then or_option o below else below

-- The tab is written unless it is the view's default.
abbrev pub tab_param : WorkspaceView → Text → Option Text
tab_param view tab = if text_eq tab (default_workspace_tab view) then none else some tab

module _ (view : WorkspaceView) (tab : Text) (o : PathOptions) where
  get_param-tab_params :
      (j : Text)
      → get_param j (tab_params view tab) ≡ layer (codes "tab") j (tab_param view tab) none
  unfolding tab_params get_param
  get_param-tab_params j = elim (Bool-cases (text_eq tab (default_workspace_tab view))) [
    | inl e ↦ rw e (ground arith)
    | inr e ↦ rw e (rw get_param-set_param)
  ]

  get_param-path_params :
      (j : Text)
      → get_param j (path_params view tab o)
        ≡ layer (codes "endpoint") j (sent (on_sandbox view tab) o.endpoint_id) (
            layer (codes "run") j (sent (on_run view tab) o.run_id) (
              layer
                (codes "dataset")
                j
                (sent (on_dataset view tab) o.dataset_id)
                (layer (codes "tab") j (tab_param view tab) none)))
  unfolding path_params
  get_param-path_params j =
      rw (
        get_param-set_id,
        set_run-set_id,
        get_param-set_id,
        get_param-set_id,
        get_param-tab_params j,
      )

  pub get_tab-path_params : get_param (codes "tab") (path_params view tab o) ≡ tab_param view tab
  unfolding text_eq
  get_tab-path_params = rw get_param-path_params (or_option-none _)

  pub get_dataset-path_params :
      get_param (codes "dataset") (path_params view tab o) ≡ sent (on_dataset view tab) o.dataset_id
  unfolding text_eq
  get_dataset-path_params = rw get_param-path_params (or_option-none _)

  pub get_run-path_params :
      get_param (codes "run") (path_params view tab o) ≡ sent (on_run view tab) o.run_id
  unfolding text_eq
  get_run-path_params = rw get_param-path_params (or_option-none _)

  pub get_endpoint-path_params :
      get_param (codes "endpoint") (path_params view tab o)
      ≡ sent (on_sandbox view tab) o.endpoint_id
  unfolding text_eq
  get_endpoint-path_params = rw get_param-path_params (or_option-none _)

-- Sending a value that has been sent before changes nothing.
set_id-sent :
    (k : Text) (w : Bool) (o : Option Text) (ps : SearchParams)
    → set_id w k (sent w (sent w o)) ps ≡ set_id w k o ps
unfolding set_id
set_id-sent k w none ps = ground arith
set_id-sent k w (some v) ps = ground arith

abbrev resent : WorkspaceView → Text → PathOptions → PathOptions
resent view tab o = record {
  dataset_id = sent (on_dataset view tab) (sent (on_dataset view tab) o.dataset_id);
  endpoint_id = sent (on_sandbox view tab) (sent (on_sandbox view tab) o.endpoint_id);
  run_id = sent (on_run view tab) (sent (on_run view tab) o.run_id);
}

path_params-resent :
    (view : WorkspaceView) (tab : Text) (o : PathOptions)
    → path_params view tab (resent view tab o) ≡ path_params view tab o
unfolding path_params
path_params-resent view tab o =
    rw (set_run-set_id, set_run-set_id, set_id-sent, set_id-sent, set_id-sent)

-- What is read back from the parameters of a path are the parameters that were written.
pub requested_options-path_params :
    (view : WorkspaceView) (tab : Text) (o : PathOptions)
    → path_params view tab (requested_options view tab (path_params view tab o))
      ≡ path_params view tab o
unfolding requested_options
requested_options-path_params view tab o =
    rw
      (
        get_dataset-path_params, get_run-path_params, get_endpoint-path_params,
        valid_run_id-valid_resource_id,
      )
      (path_params-resent view tab o)
