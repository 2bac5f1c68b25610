-- ===== src/DatasetRun/Examples.antt =====
-- Dataset runs at concrete inputs.
use Prim.Native.Nat.{ℕ, suc}
use llm_evaluation.Prelude.{
  ◌≡◌, ◌⊎◌, refl, false, Text, List, not, ◌==◌, none, some, [], ◌∷◌, codes, text_eq, includes, trim,
  is_space, drop_start, drop_end, cut, length,
}
use llm_evaluation.Prelude.Distinct.{distinct}
use llm_evaluation.Types.Endpoints.{Endpoint, EndpointStatus, ProtocolProfile}
use llm_evaluation.DatasetRun.{
  DatasetMetricId, DatasetRunForm, initial_dataset_run, blocked, collide, dataset_run_payload,
  judge_configuration_missing, available_judge_endpoints,
}
use llm_evaluation.DatasetRun.Schema.{choose_fields, fill_form, IsChoice, choose_fields-IsChoice}
use llm_evaluation.Types.Datasets.{Dataset, EvaluationType}
use llm_evaluation.Catalog.{Locale}
use llm_evaluation.DatasetRun.Launch.{
  Launch, Event, listed, change_form, answered, preflight, preflighted, initial_launch, bool_eq,
  declared_eq, deps_eq, deps_of, run_effect, commit_launch, chosen, take_fields, handle_launch,
  step_launch, run_launch,
}
use llm_evaluation.DatasetRun.Asked.{HasAsked}
use llm_evaluation.DatasetRun.Requests.{IsOffer, run_launch-IsOffer}
use llm_evaluation.DatasetRun.Queue.{IsRunnable, blocked-IsRunnable}

program : Unit {0}
unfolding text_eq includes trim is_space drop_start drop_end cut distinct blocked collide
    judge_configuration_missing available_judge_endpoints choose_fields
program = tt

abbrev judge_endpoint : Endpoint ℕ ℕ
judge_endpoint = record {
  id = codes "judge";
  display_name = codes "Judge";
  base_url = [];
  model_name = codes "judge-1";
  protocol_profile = ProtocolProfile.openai_chat_completions;
  api_key_mask = [];
  custom_headers = [];
  default_request_body = 0;
  reasoning_effort = none;
  context_length = none;
  max_output_tokens = none;
  timeout_seconds = 60;
  status = EndpointStatus.available;
  max_concurrency = 1;
  requests_per_second = none;
  requests_per_minute = none;
  tokens_per_minute = none;
  input_tokens_per_minute = none;
  output_tokens_per_minute = none;
  input_cost_per_million = none;
  output_cost_per_million = none;
  currency = [];
  tags = [];
  notes = none;
  last_connection_error = none;
  api_key_max_concurrency = none;
}

abbrev judged_form : DatasetRunForm
judged_form = record initial_dataset_run {
  dataset_version_id = codes "gsm8k";
  input_field = codes "question";
  reference_field = codes "answer";
  model_endpoint_id = codes "model";
  metric = DatasetMetricId.llm_judge;
  judge_endpoint_id = codes "judge";
  judge_system_message = codes " Be fair. ";
}

free : blocked false none (collide judged_form) (judge_endpoint ∷ []) judged_form ≡ false
unfolding program
free = refl

blocked-IsRunnable_example :
    IsRunnable
      (judge_endpoint ∷ [])
      judged_form
      (dataset_run_payload length (λ n. not (n == 0)) 100 judged_form)
unfolding program
blocked-IsRunnable_example =
    blocked-IsRunnable length (λ n. not (n == 0)) 100 false none (judge_endpoint ∷ []) judged_form
      (refl, tt) refl

-- A dataset that declares its first field as reference and no input has the same field preselected
-- twice.
preselected_twice :
    let c =
      choose_fields [] [] none (some (codes "answer")) (codes "answer" ∷ codes "question" ∷ []) in
    c.input_field ≡ c.reference_field
unfolding program
preselected_twice = refl

choose_fields-IsChoice_example :
    IsChoice
      (some (codes "answer"))
      (codes "answer" ∷ codes "question" ∷ [])
      (choose_fields [] [] none (some (codes "answer")) (codes "answer" ∷ codes "question" ∷ []))
choose_fields-IsChoice_example =
    choose_fields-IsChoice [] [] none (some (codes "answer"))
      (codes "answer" ∷ codes "question" ∷ [])

abbrev prepared : Text → Dataset ℕ
prepared id = record {
  id = id;
  dataset_id = id;
  version = [];
  revision = [];
  source_url = none;
  credential_binding_id = none;
  checksum = none;
  local_path = none;
  size_bytes = none;
  license_text = none;
  license_accepted_at = none;
  status = codes "ready";
  error_message = none;
  input_field = none;
  reference_field = none;
  capabilities = [];
  languages = [];
  evaluation_type = EvaluationType.custom;
}

abbrev form_of : Text → DatasetRunForm
form_of id = record initial_dataset_run { dataset_version_id = id }

abbrev no_message : Locale → Text
no_message locale = []

abbrev two_choices : List (Event ℕ Text)
two_choices =
    listed (prepared (codes "a") ∷ prepared (codes "b") ∷ [])
    ∷ change_form (form_of (codes "a"))
    ∷ change_form (form_of (codes "b"))
    ∷ answered 3 (codes "q" ∷ codes "r" ∷ [])
    ∷ []

launching : Unit {0}
unfolding program bool_eq declared_eq deps_eq deps_of run_effect commit_launch chosen take_fields
    handle_launch step_launch run_launch fill_form
launching = tt

abbrev launched : Launch ℕ Text
launched = run_launch no_message no_message two_choices (initial_launch Locale.en)

third_request : (launched.generation ≡ 3) × (launched.form.input_field ≡ codes "q")
unfolding launching
third_request = (refl, refl)

second_is_old : (2 == launched.generation) ≡ false
unfolding launching
second_is_old = refl

run_launch-IsOffer_example :
    HasAsked launched
    × ((launched.fields ≡ []) ⊎ IsOffer launched two_choices)
    × ((e : Event ℕ Text)
        → let t = step_launch no_message no_message e launched in
          ((t.generation ≡ launched.generation) × (t.deps ≡ launched.deps))
          ⊎ (t.generation ≡ suc launched.generation))
    × (step_launch no_message no_message (answered 2 (codes "x" ∷ [])) launched ≡ launched)
    × (step_launch no_message no_message (Event.failed 2 (codes "gone")) launched ≡ launched)
run_launch-IsOffer_example =
    run_launch-IsOffer no_message no_message two_choices Locale.en 2 (codes "x" ∷ []) (codes "gone")
      second_is_old

abbrev changed_meanwhile : List (Event ℕ Text)
changed_meanwhile =
    change_form (form_of (codes "a"))
    ∷ preflight
    ∷ change_form (form_of (codes "b"))
    ∷ preflighted (codes "a is ready")
    ∷ []

-- The check that was asked for one dataset is shown beside another one.
late_preflight :
    (run_launch no_message no_message changed_meanwhile (initial_launch Locale.en)).launch_preflight
    ≡ some (codes "a is ready")
unfolding launching
late_preflight = refl
