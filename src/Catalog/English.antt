-- ===== src/Catalog/English.antt =====
-- frontend/src/i18n/catalog.ts: the English catalogue.
use llm_evaluation.Prelude.{String}
use llm_evaluation.Catalog.Keys.{TranslationKey}

unfoldable pub en : TranslationKey → String
en TranslationKey.common_dismiss = "Dismiss"
en TranslationKey.common_loading = "Loading…"
en TranslationKey.common_not_configured = "Not configured"
en TranslationKey.common_not_recorded = "Not recorded"
en TranslationKey.common_unavailable = "Unavailable"
en TranslationKey.common_unknown = "Unknown"
en TranslationKey.locale_label = "Workspace language"
en TranslationKey.locale_unsupported = "Unsupported locale"
en TranslationKey.provider_missing = "Translation provider is unavailable."
en TranslationKey.run_launcher_context_title = "Launch context"
en TranslationKey.run_launcher_context_description =
    "Choose one available endpoint and check either launch path before queueing."
en TranslationKey.run_launcher_quick_start_title = "Quick start"
en TranslationKey.run_launcher_quick_start_description =
    "Run a small built-in evaluation without preparing a dataset first."
en TranslationKey.run_launcher_dataset_description =
    "Choose a ready dataset and map its prepared fields into an evaluation snapshot."
en TranslationKey.run_launcher_quick_start_benchmark = "Quick-start benchmark"
en TranslationKey.run_launcher_offline_hint =
    "Built-in fixtures are small, deterministic, and available offline for text and modality checks."
en TranslationKey.run_launcher_queue_quick_start = "Queue quick start"
en TranslationKey.run_launcher_preflight_quick_start = "Preflight quick start"
en TranslationKey.run_launcher_preflight_dataset = "Preflight dataset"
en TranslationKey.run_launcher_not_checked = "Not checked"
en TranslationKey.run_launcher_checking = "Checking…"
en TranslationKey.run_launcher_ready = "Ready to queue"
en TranslationKey.run_launcher_blocked = "Blocked"
en TranslationKey.run_launcher_dataset_handoff =
    "Selected from the dataset catalog. Review the detected field mapping before queueing."
en TranslationKey.run_launcher_schema_loading = "Reading prepared dataset fields…"
en TranslationKey.run_launcher_schema_empty = "This dataset has no selectable fields."
en TranslationKey.run_launcher_schema_reference_required =
    "This dataset exposes only one field; a distinct reference field is required."
en TranslationKey.run_launcher_schema_distinct_fields =
    "Input and reference fields must be different."
en TranslationKey.run_launcher_schema_retry = "Retry"
en TranslationKey.prompt_package_title = "Prompt packages"
en TranslationKey.prompt_package_description =
    "Create versioned evaluation instructions for your runs."
en TranslationKey.prompt_package_inventory = "Prompt package inventory"
en TranslationKey.prompt_package_empty = "No prompt packages yet."
en TranslationKey.prompt_package_create = "Create prompt package"
en TranslationKey.prompt_package_name = "Name"
en TranslationKey.prompt_package_version = "Version"
en TranslationKey.prompt_package_type = "Prompt type"
en TranslationKey.prompt_package_system_message = "System message"
en TranslationKey.prompt_package_user_template = "User template"
en TranslationKey.prompt_package_few_shot_examples = "Few-shot examples (JSON array)"
en TranslationKey.prompt_package_output_format = "Output format (JSON object)"
en TranslationKey.prompt_package_response_parser = "Response parser (JSON object)"
en TranslationKey.prompt_package_scoring_rule = "Scoring rule (JSON object)"
en TranslationKey.prompt_package_change_log = "Change log"
en TranslationKey.prompt_package_save = "Save versioned prompt"
en TranslationKey.prompt_package_saving = "Saving…"
en TranslationKey.prompt_package_invalid_json = "Use valid JSON for optional configuration fields."
en TranslationKey.prompt_package_examples_must_array = "Few-shot examples must be a JSON array."
en TranslationKey.prompt_package_config_must_object =
    "Optional configuration fields must be JSON objects."
en TranslationKey.prompt_package_inventory_tab = "Prompt inventory"
en TranslationKey.prompt_package_inventory_description =
    "Select a version to inspect and manage its evaluation instructions."
en TranslationKey.prompt_package_create_tab = "New prompt package"
en TranslationKey.prompt_package_create_description =
    "Create a versioned prompt package that can be reused across evaluations."
en TranslationKey.prompt_package_identity = "Identity and type"
en TranslationKey.prompt_package_instructions = "Prompt instructions"
en TranslationKey.prompt_package_advanced = "Advanced configuration"
en TranslationKey.prompt_package_template_hint = "Supported template variables:"
en TranslationKey.prompt_package_variables = "Variables"
en TranslationKey.prompt_package_no_system_message = "No system message configured."
en TranslationKey.prompt_package_not_configured = "Not configured"
en TranslationKey.prompt_package_no_change_log = "No change log provided."
en TranslationKey.prompt_package_edit = "Edit prompt package"
en TranslationKey.prompt_package_save_changes = "Save changes"
en TranslationKey.prompt_package_cancel = "Cancel"
en TranslationKey.prompt_package_duplicate = "Duplicate as new version"
en TranslationKey.prompt_package_delete = "Delete package"
en TranslationKey.prompt_package_deleting = "Deleting…"
en TranslationKey.prompt_package_delete_confirmation =
    "Delete {{name}} v{{version}}? Packages used by runs or suites are protected."
en TranslationKey.prompt_package_saved_notice = "Versioned prompt package saved."
en TranslationKey.prompt_package_updated_notice = "Prompt package updated."
en TranslationKey.prompt_package_deleted_notice = "Prompt package deleted."
en TranslationKey.dataset_run_title = "Dataset evaluation"
en TranslationKey.dataset_run_dataset = "Dataset"
en TranslationKey.dataset_run_prompt_package = "Prompt package (optional)"
en TranslationKey.dataset_run_reference_field = "Reference field"
en TranslationKey.dataset_run_reference_field_hint = "Record field holding the expected answer"
en TranslationKey.dataset_run_sample_limit = "Sample limit"
en TranslationKey.dataset_run_endpoint = "Endpoint"
en TranslationKey.dataset_run_non_ready_hint =
    "Only ready datasets are listed. Download and verify other versions first."
en TranslationKey.dataset_run_queue = "Queue dataset run"
en TranslationKey.dataset_run_queued = "Dataset evaluation run queued."
en TranslationKey.dataset_run_input_field = "Input field"
en TranslationKey.dataset_run_metric = "Evaluation metric"
en TranslationKey.dataset_run_metric_default = "Default"
en TranslationKey.dataset_run_metric_exact_match = "Exact match"
en TranslationKey.dataset_run_metric_normalized_exact_match = "Normalized exact match"
en TranslationKey.dataset_run_metric_token_f1 = "Token F1"
en TranslationKey.dataset_run_metric_bleu = "BLEU"
en TranslationKey.dataset_run_metric_rouge_l = "ROUGE-L"
en TranslationKey.dataset_run_metric_llm_judge = "LLM-as-judge"
en TranslationKey.dataset_run_judge_endpoint = "Judge endpoint"
en TranslationKey.dataset_run_judge_endpoint_hint =
    "Choose a tested endpoint other than the model being evaluated."
en TranslationKey.dataset_run_judge_system_message = "Judge system message"
en TranslationKey.dataset_run_judge_system_message_hint =
    "Define the evaluation criteria the judge must apply to each answer."
en TranslationKey.dataset_run_judge_configuration_required =
    "Choose a separate judge endpoint and provide a system message."
en TranslationKey.dataset_run_metric_default_hint =
    "Default uses the prompt package scoring rule, then falls back to exact match."
en TranslationKey.dataset_run_metric_override_hint =
    "Choosing a metric here overrides the prompt package scoring rule."
en TranslationKey.dataset_run_effective_metric = "Evaluation metric"
en TranslationKey.dataset_run_start_evaluation = "Start evaluation"
en TranslationKey.dataset_register_title = "Register dataset version"
en TranslationKey.dataset_register_input_field = "Input field"
en TranslationKey.dataset_register_reference_field = "Reference (output) field"
en TranslationKey.dataset_register_input_field_hint =
    "Optional record field used as the prompt input"
en TranslationKey.dataset_register_reference_field_hint =
    "Optional record field holding the expected answer"
en TranslationKey.dataset_register_metadata = "Evaluation profile"
en TranslationKey.dataset_register_metadata_hint =
    "Attach reusable task and language metadata to this dataset version."
en TranslationKey.dataset_register_capabilities = "Capabilities"
en TranslationKey.dataset_register_languages = "Languages"
en TranslationKey.dataset_register_evaluation_type = "Evaluation type"
en TranslationKey.dataset_register_remove_capability = "Remove capability"
en TranslationKey.dataset_register_remove_language = "Remove language"
en TranslationKey.dataset_register_multi_value_hint =
    "Press Enter or comma to add a value; Backspace removes the last value."
en TranslationKey.dataset_register_type_classification = "Classification"
en TranslationKey.dataset_register_type_generation = "Generation"
en TranslationKey.dataset_register_type_code = "Code"
en TranslationKey.dataset_register_type_language_modeling = "Language modeling"
en TranslationKey.dataset_register_type_custom = "Custom"
en TranslationKey.dataset_register_schema_loading = "Reading prepared fields for selection…"
en TranslationKey.dataset_register_manual_field_hint =
    "Prepared fields are unavailable; enter field names manually."
en TranslationKey.dataset_register_schema_changed =
    "A saved field is not present in the prepared schema. Choose an available field before saving."
