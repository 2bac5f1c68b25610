-- ===== src/Catalog/Keys.antt =====
-- frontend/src/i18n/catalog.ts: the keys of the translated texts, which are those of the English
-- catalogue, and the list of them.
use llm_evaluation.Prelude.{List, [], ◌∷◌}

pub data TranslationKey : Type 0 where
  common_dismiss common_loading common_not_configured common_not_recorded : TranslationKey
  common_unavailable common_unknown locale_label locale_unsupported : TranslationKey
  provider_missing run_launcher_context_title run_launcher_context_description : TranslationKey
  run_launcher_quick_start_title run_launcher_quick_start_description : TranslationKey
  run_launcher_dataset_description run_launcher_quick_start_benchmark : TranslationKey
  run_launcher_offline_hint run_launcher_queue_quick_start : TranslationKey
  run_launcher_preflight_quick_start run_launcher_preflight_dataset : TranslationKey
  run_launcher_not_checked run_launcher_checking run_launcher_ready : TranslationKey
  run_launcher_blocked run_launcher_dataset_handoff run_launcher_schema_loading : TranslationKey
  run_launcher_schema_empty run_launcher_schema_reference_required : TranslationKey
  run_launcher_schema_distinct_fields run_launcher_schema_retry : TranslationKey
  prompt_package_title prompt_package_description prompt_package_inventory : TranslationKey
  prompt_package_empty prompt_package_create prompt_package_name : TranslationKey
  prompt_package_version prompt_package_type prompt_package_system_message : TranslationKey
  prompt_package_user_template prompt_package_few_shot_examples : TranslationKey
  prompt_package_output_format prompt_package_response_parser : TranslationKey
  prompt_package_scoring_rule prompt_package_change_log prompt_package_save : TranslationKey
  prompt_package_saving prompt_package_invalid_json : TranslationKey
  prompt_package_examples_must_array prompt_package_config_must_object : TranslationKey
  prompt_package_inventory_tab prompt_package_inventory_description : TranslationKey
  prompt_package_create_tab prompt_package_create_description : TranslationKey
  prompt_package_identity prompt_package_instructions prompt_package_advanced : TranslationKey
  prompt_package_template_hint prompt_package_variables : TranslationKey
  prompt_package_no_system_message prompt_package_not_configured : TranslationKey
  prompt_package_no_change_log prompt_package_edit prompt_package_save_changes : TranslationKey
  prompt_package_cancel prompt_package_duplicate prompt_package_delete : TranslationKey
  prompt_package_deleting prompt_package_delete_confirmation : TranslationKey
  prompt_package_saved_notice prompt_package_updated_notice : TranslationKey
  prompt_package_deleted_notice dataset_run_title dataset_run_dataset : TranslationKey
  dataset_run_prompt_package dataset_run_reference_field : TranslationKey
  dataset_run_reference_field_hint dataset_run_sample_limit : TranslationKey
  dataset_run_endpoint dataset_run_non_ready_hint dataset_run_queue : TranslationKey
  dataset_run_queued dataset_run_input_field dataset_run_metric : TranslationKey
  dataset_run_metric_default dataset_run_metric_exact_match : TranslationKey
  dataset_run_metric_normalized_exact_match dataset_run_metric_token_f1 : TranslationKey
  dataset_run_metric_bleu dataset_run_metric_rouge_l : TranslationKey
  dataset_run_metric_llm_judge dataset_run_judge_endpoint : TranslationKey
  dataset_run_judge_endpoint_hint dataset_run_judge_system_message : TranslationKey
  dataset_run_judge_system_message_hint : TranslationKey
  dataset_run_judge_configuration_required dataset_run_metric_default_hint : TranslationKey
  dataset_run_metric_override_hint dataset_run_effective_metric : TranslationKey
  dataset_run_start_evaluation dataset_register_title : TranslationKey
  dataset_register_input_field dataset_register_reference_field : TranslationKey
  dataset_register_input_field_hint dataset_register_reference_field_hint : TranslationKey
  dataset_register_metadata dataset_register_metadata_hint : TranslationKey
  dataset_register_capabilities dataset_register_languages : TranslationKey
  dataset_register_evaluation_type dataset_register_remove_capability : TranslationKey
  dataset_register_remove_language dataset_register_multi_value_hint : TranslationKey
  dataset_register_type_classification dataset_register_type_generation : TranslationKey
  dataset_register_type_code dataset_register_type_language_modeling : TranslationKey
  dataset_register_type_custom dataset_register_schema_loading : TranslationKey
  dataset_register_manual_field_hint dataset_register_schema_changed : TranslationKey

abbrev pub translation_keys : List TranslationKey
translation_keys =
    common_dismiss ∷ common_loading ∷ common_not_configured ∷ common_not_recorded
    ∷ common_unavailable ∷ common_unknown ∷ locale_label ∷ locale_unsupported ∷ provider_missing
    ∷ run_launcher_context_title ∷ run_launcher_context_description ∷ run_launcher_quick_start_title
    ∷ run_launcher_quick_start_description ∷ run_launcher_dataset_description
    ∷ run_launcher_quick_start_benchmark ∷ run_launcher_offline_hint
    ∷ run_launcher_queue_quick_start ∷ run_launcher_preflight_quick_start
    ∷ run_launcher_preflight_dataset ∷ run_launcher_not_checked ∷ run_launcher_checking
    ∷ run_launcher_ready ∷ run_launcher_blocked ∷ run_launcher_dataset_handoff
    ∷ run_launcher_schema_loading ∷ run_launcher_schema_empty
    ∷ run_launcher_schema_reference_required ∷ run_launcher_schema_distinct_fields
    ∷ run_launcher_schema_retry ∷ prompt_package_title ∷ prompt_package_description
    ∷ prompt_package_inventory ∷ prompt_package_empty ∷ prompt_package_create ∷ prompt_package_name
    ∷ prompt_package_version ∷ prompt_package_type ∷ prompt_package_system_message
    ∷ prompt_package_user_template ∷ prompt_package_few_shot_examples ∷ prompt_package_output_format
    ∷ prompt_package_response_parser ∷ prompt_package_scoring_rule ∷ prompt_package_change_log
    ∷ prompt_package_save ∷ prompt_package_saving ∷ prompt_package_invalid_json
    ∷ prompt_package_examples_must_array ∷ prompt_package_config_must_object
    ∷ prompt_package_inventory_tab ∷ prompt_package_inventory_description
    ∷ prompt_package_create_tab ∷ prompt_package_create_description ∷ prompt_package_identity
    ∷ prompt_package_instructions ∷ prompt_package_advanced ∷ prompt_package_template_hint
    ∷ prompt_package_variables ∷ prompt_package_no_system_message ∷ prompt_package_not_configured
    ∷ prompt_package_no_change_log ∷ prompt_package_edit ∷ prompt_package_save_changes
    ∷ prompt_package_cancel ∷ prompt_package_duplicate ∷ prompt_package_delete
    ∷ prompt_package_deleting ∷ prompt_package_delete_confirmation ∷ prompt_package_saved_notice
    ∷ prompt_package_updated_notice ∷ prompt_package_deleted_notice ∷ dataset_run_title
    ∷ dataset_run_dataset ∷ dataset_run_prompt_package ∷ dataset_run_reference_field
    ∷ dataset_run_reference_field_hint ∷ dataset_run_sample_limit ∷ dataset_run_endpoint
    ∷ dataset_run_non_ready_hint ∷ dataset_run_queue ∷ dataset_run_queued ∷ dataset_run_input_field
    ∷ dataset_run_metric ∷ dataset_run_metric_default ∷ dataset_run_metric_exact_match
    ∷ dataset_run_metric_normalized_exact_match ∷ dataset_run_metric_token_f1
    ∷ dataset_run_metric_bleu ∷ dataset_run_metric_rouge_l ∷ dataset_run_metric_llm_judge
    ∷ dataset_run_judge_endpoint ∷ dataset_run_judge_endpoint_hint
    ∷ dataset_run_judge_system_message ∷ dataset_run_judge_system_message_hint
    ∷ dataset_run_judge_configuration_required ∷ dataset_run_metric_default_hint
    ∷ dataset_run_metric_override_hint ∷ dataset_run_effective_metric ∷ dataset_run_start_evaluation
    ∷ dataset_register_title ∷ dataset_register_input_field ∷ dataset_register_reference_field
    ∷ dataset_register_input_field_hint ∷ dataset_register_reference_field_hint
    ∷ dataset_register_metadata ∷ dataset_register_metadata_hint ∷ dataset_register_capabilities
    ∷ dataset_register_languages ∷ dataset_register_evaluation_type
    ∷ dataset_register_remove_capability ∷ dataset_register_remove_language
    ∷ dataset_register_multi_value_hint ∷ dataset_register_type_classification
    ∷ dataset_register_type_generation ∷ dataset_register_type_code
    ∷ dataset_register_type_language_modeling ∷ dataset_register_type_custom
    ∷ dataset_register_schema_loading ∷ dataset_register_manual_field_hint
    ∷ dataset_register_schema_changed ∷ []
