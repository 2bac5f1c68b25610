-- ===== src/DatasetRun/Queue.antt =====
-- What is known of the request for a dataset run when the queue button is on.
use llm_evaluation.Prelude.{
  ◌≡◌, ◌≢◌, ◌⊎◌, inl, inr, refl, ap, Bool, true, false, not, ◌&&◌, if◌then◌else◌, Option, none,
  some, List, [], ◌∷◌, keep, any, Text, text_eq, text_eq_iff, truthy, non_empty, trim, arith,
  Bool-cases, All, and-split,
}
use llm_evaluation.Types.Endpoints.{Endpoint, EndpointStatus}
use llm_evaluation.DatasetRun.{
  DatasetMetricId, DatasetRunForm, DatasetRunPayload, by_llm_judge, dataset_scoring_rule_for,
  is_llm_judge, is_available, available_judge_endpoints, judge_configuration_missing, blocked,
  collide, dataset_run_payload,
}

-- A request that names its endpoint, dataset and reference field, takes the prompt package or an input
-- field that is not the reference field, and is judged by an available endpoint other than its own.
pub record IsRunnable {N J : Type 0} (endpoints : List (Endpoint N J)) (form : DatasetRunForm)
    (p : DatasetRunPayload N) : Type 0 where
  pub endpoint : truthy p.model_endpoint_id ≡ true
  pub dataset : truthy p.dataset_version_id ≡ true
  pub reference : truthy p.reference_field ≡ true
  pub source :
      ((p.prompt_package_id ≢ none) × (p.input_field ≡ none))
      ⊎ ((p.prompt_package_id ≡ none)
          × ((field : Text) × (p.input_field ≡ some field)
              × (field ≢ p.reference_field)
              × (truthy field ≡ true)))
  pub judge :
      form.metric ≡ DatasetMetricId.llm_judge
      → (e : Endpoint N J) × (message : Text) × (e.status ≡ EndpointStatus.available)
        × (e.id ≢ p.model_endpoint_id)
        × (truthy message ≡ true)
        × (p.scoring_rule ≡ some (by_llm_judge e.id message))

is_available-eq :
    (status : EndpointStatus) → is_available status ≡ true → status ≡ EndpointStatus.available
is_available-eq EndpointStatus.available h = refl
is_available-eq _ h = cc

module _ {N J : Type 0} where
  find-judge :
      (model wanted : Text) (endpoints : List (Endpoint N J))
      → All (λ e. trim e.id ≡ e.id) endpoints
      → any
          (λ e. text_eq e.id wanted)
          (keep (λ e. is_available e.status && not (text_eq e.id model)) endpoints)
        ≡ true
      → (e : Endpoint N J) × (e.status ≡ EndpointStatus.available)
        × (e.id ≢ model)
        × (e.id ≡ wanted)
        × (trim e.id ≡ e.id)
  find-judge model wanted [] trimmed h = cc
  find-judge model wanted (e ∷ endpoints) (t, trimmed) h =
      elim (Bool-cases (is_available e.status && not (text_eq e.id model))) [
        | inr out ↦ find-judge model wanted endpoints trimmed (rw out at h)
        | inl fits ↦ elim (Bool-cases (text_eq e.id wanted)) [
          | inr other ↦ find-judge model wanted endpoints trimmed (ground arith)
          | inl same ↦
              let (on, apart) = and-split (is_available e.status) (not (text_eq e.id model)) fits in
              (
                e,
                is_available-eq e.status on,
                λ k. cc ((text_eq_iff e.id model).1 k, apart),
                (text_eq_iff e.id wanted).0 same,
                t,
              )
        ]
      ]

source-of :
    (prompt input reference : Text)
    → (not (truthy input) && not (truthy prompt)) ≡ false
    → (truthy input && text_eq input reference) ≡ false
    → let chosen = if truthy prompt then none else some input in
      ((non_empty prompt ≢ none) × (chosen ≡ none))
      ⊎ ((non_empty prompt ≡ none)
          × ((field : Text) × (chosen ≡ some field) × (field ≢ reference) × (truthy field ≡ true)))
source-of (c ∷ prompt) input reference h k = inl (λ e. cc, refl)
source-of [] input reference h k =
    let full = text_eq_iff input reference in
    let present : truthy input ≡ true = ground arith in
    inr (refl, (input, refl, λ e. cc (full.1 e, present, k), present))

scoring-rule :
    (metric : DatasetMetricId) (wanted message : Text)
    → metric ≡ DatasetMetricId.llm_judge
    → truthy (trim wanted) ≡ true
    → truthy (trim message) ≡ true
    → dataset_scoring_rule_for metric
        (some (record { judge_endpoint_id = wanted; system_message = message }))
      ≡ some (by_llm_judge (trim wanted) (trim message))
unfolding dataset_scoring_rule_for
scoring-rule metric wanted message m h k = rw (m, h, k) refl

judge-of :
    {N J : Type 0} (endpoints : List (Endpoint N J)) (form : DatasetRunForm)
    → All (λ e. trim e.id ≡ e.id) endpoints
    → judge_configuration_missing endpoints form ≡ false
    → form.metric ≡ DatasetMetricId.llm_judge
    → (e : Endpoint N J) × (message : Text) × (e.status ≡ EndpointStatus.available)
      × (e.id ≢ form.model_endpoint_id)
      × (truthy message ≡ true)
      × (dataset_scoring_rule_for form.metric (
            some (record {
              judge_endpoint_id = form.judge_endpoint_id;
              system_message = form.judge_system_message;
            }))
          ≡ some (by_llm_judge e.id message))
unfolding judge_configuration_missing available_judge_endpoints
judge-of endpoints form trimmed h m =
    let judged = ap is_llm_judge m in
    let present : any (λ e. text_eq e.id form.judge_endpoint_id)
          (keep (λ e. is_available e.status && not (text_eq e.id form.model_endpoint_id)) endpoints)
        ≡ true =
      ground arith in
    let wanted : truthy form.judge_endpoint_id ≡ true = ground arith in
    let spoken : truthy (trim form.judge_system_message) ≡ true = ground arith in
    let (e, on, apart, same, t) =
      find-judge form.model_endpoint_id form.judge_endpoint_id endpoints trimmed present in
    let whole : trim form.judge_endpoint_id ≡ e.id = cc in
    let rule =
      scoring-rule form.metric form.judge_endpoint_id form.judge_system_message m
        (rw whole (rw same wanted)) spoken in
    (e, trim form.judge_system_message, on, apart, spoken, rw whole at rule)

-- When nothing blocks the queue button, the request is runnable, for endpoints whose identifiers have
-- no blanks around them.
pub blocked-IsRunnable :
    {N J : Type 0} (number : Text → N) (is_truthy : N → Bool) (hundred : N) (loading : Bool)
    (error : Option Text) (endpoints : List (Endpoint N J)) (form : DatasetRunForm)
    → All (λ e. trim e.id ≡ e.id) endpoints
    → blocked loading error (collide form) endpoints form ≡ false
    → IsRunnable endpoints form (dataset_run_payload number is_truthy hundred form)
unfolding blocked collide dataset_run_payload
blocked-IsRunnable number is_truthy hundred loading error endpoints form trimmed h = record {
  endpoint = ground arith;
  dataset = ground arith;
  reference = ground arith;
  source =
      source-of form.prompt_package_id form.input_field form.reference_field (ground arith)
        (ground arith);
  judge = judge-of endpoints form trimmed (ground arith);
}
