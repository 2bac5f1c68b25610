-- ===== src/Types/Datasets.antt =====
-- The records of frontend/src/features/datasets/types.ts and benchmarks/types.ts. `N` stands for the
-- numbers and `J` for JSON values, which the code carries and does not look into.
use llm_evaluation.Prelude.{Option, List, Text}

pub data EvaluationType : Type 0 where
  classification generation code language_modeling custom : EvaluationType

pub record Dataset (N : Type 0) : Type 0 where
  pub id : Text
  pub dataset_id : Text
  pub version : Text
  pub revision : Text
  pub source_url : Option Text
  pub credential_binding_id : Option Text
  pub checksum : Option Text
  pub local_path : Option Text
  pub size_bytes : Option N
  pub license_text : Option Text
  pub license_accepted_at : Option Text
  pub status : Text
  pub error_message : Option Text
  pub input_field : Option Text
  pub reference_field : Option Text
  pub capabilities : List Text
  pub languages : List Text
  pub evaluation_type : EvaluationType

pub record Benchmark (J : Type 0) : Type 0 where
  pub id : Text
  pub benchmark_id : Text
  pub version : Text
  pub display_name : Text
  pub manifest : J
  pub status : Text
  pub source : Text
  pub created_at : Text

pub record PromptPackage (J : Type 0) : Type 0 where
  pub id : Text
  pub name : Text
  pub version : Text
  pub prompt_type : Text
  pub system_message : Option Text
  pub user_template : Text
  pub few_shot_examples : List J
  pub output_format : Option J
  pub response_parser : Option J
  pub scoring_rule : Option J
  pub change_log : Option Text
  pub created_at : Text
