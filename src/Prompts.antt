-- ===== src/Prompts.antt =====
-- frontend/src/components/pages/PromptPackagesPage.tsx: a prompt package as a form, and the request
-- that is made of a form. `JSON.parse`, which fails on a text that is no JSON, `JSON.stringify`, and
-- the kinds of a value are parameters.
pub mod RoundTrip
mod Examples
use llm_evaluation.Types.Datasets.{PromptPackage}
use llm_evaluation.Prelude.{
  ◌≡◌, Bool, true, false, not, ◌||◌, if◌then◌else◌, Option, none, some, List, [], ◌∷◌, Text, codes,
  or_else, truthy, non_empty, trim,
}

pub record PromptPackageCreatePayload (J : Type 0) : Type 0 where
  pub name : Text
  pub version : Text
  pub prompt_type : Text
  pub system_message : Option Text
  pub user_template : Text
  pub few_shot_examples : List J
  pub output_format : Option J
  pub response_parser : Option J
  pub scoring_rule : Option J
  pub change_log : Option Text

-- The type of a package is a cast of what the service sends, and stays a text.
pub record PromptPackageForm : Type 0 where
  pub name : Text
  pub version : Text
  pub prompt_type : Text
  pub system_message : Text
  pub user_template : Text
  pub few_shot_examples : Text
  pub output_format : Text
  pub response_parser : Text
  pub scoring_rule : Text
  pub change_log : Text

-- The messages of `PromptPackageFormError`, or a result.
pub data PromptPackageFormError : Type 0 where
  invalid_json examples_must_array config_must_object : PromptPackageFormError

pub data Outcome (A : Type 0) : Type 0 where
  ok : A → Outcome A
  throws : PromptPackageFormError → Outcome A

abbrev pub and_then : {A B : Type 0} → Outcome A → (A → Outcome B) → Outcome B
and_then (ok a) f = f a
and_then (throws e) f = throws e

-- `is_object` holds of the objects that are neither null nor an array; an array is its items.
pub record Json (J : Type 0) : Type 0 where
  pub parse : Text → Option J
  pub stringify : J → Text
  pub array : List J → J
  pub items : J → Option (List J)
  pub is_object : J → Bool

module _ {J : Type 0} (json : Json J) where
  unfoldable pub optional_object : Text → Outcome (Option J)
  optional_object value =
      if truthy (trim value)
      then elim (json.parse value) [
        | none ↦ throws invalid_json
        | some parsed ↦
            if json.is_object parsed then ok (some parsed) else throws config_must_object
      ]
      else ok none

  unfoldable pub examples : Text → Outcome (List J)
  examples value = elim (json.parse (or_else (non_empty value) (codes "[]"))) [
    | none ↦ throws invalid_json
    | some parsed ↦ elim (json.items parsed) [
      | none ↦ throws examples_must_array
      | some items ↦ ok items
    ]
  ]

  abbrev pub json_value : Option J → Text
  json_value none = []
  json_value (some value) = json.stringify value

  pub prompt_package_form : PromptPackage J → PromptPackageForm
  prompt_package_form prompt = record {
    name = prompt.name;
    version = prompt.version;
    prompt_type = prompt.prompt_type;
    system_message = or_else prompt.system_message [];
    user_template = prompt.user_template;
    few_shot_examples = json_value (some (json.array prompt.few_shot_examples));
    output_format = json_value prompt.output_format;
    response_parser = json_value prompt.response_parser;
    scoring_rule = json_value prompt.scoring_rule;
    change_log = or_else prompt.change_log [];
  }

  pub prompt_package_payload : PromptPackageForm → Outcome (PromptPackageCreatePayload J)
  prompt_package_payload form = and_then (examples form.few_shot_examples) (λ shots.
      and_then (optional_object form.output_format) (λ format.
        and_then (optional_object form.response_parser) (λ parser.
          and_then (optional_object form.scoring_rule) (λ rule. ok (record {
            name = trim form.name;
            version = trim form.version;
            prompt_type = form.prompt_type;
            system_message = non_empty (trim form.system_message);
            user_template = form.user_template;
            few_shot_examples = shots;
            output_format = format;
            response_parser = parser;
            scoring_rule = rule;
            change_log = non_empty (trim form.change_log);
          })))))
