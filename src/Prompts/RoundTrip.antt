-- ===== src/Prompts/RoundTrip.antt =====
-- Saving the form of a package as it is.
use llm_evaluation.Prelude.{
  ◌≡◌, refl, true, Option, none, some, List, [], ◌∷◌, Text, codes, or_else, truthy, non_empty, trim,
  drop_start, drop_end,
}
use llm_evaluation.Types.Datasets.{PromptPackage}
use llm_evaluation.Prompts.{
  PromptPackageCreatePayload, ok, Json, optional_object, examples, json_value, prompt_package_form,
  prompt_package_payload,
}

-- What the code relies on: a value that is written is read back, an array has
-- its items, and no value is written as blanks.
pub record JsonLaws {J : Type 0} (json : Json J) : Type 0 where
  pub parse-stringify : (value : J) → json.parse (json.stringify value) ≡ some value
  pub items-array : (values : List J) → json.items (json.array values) ≡ some values
  pub written : (value : J) → truthy (trim (json.stringify value)) ≡ true

-- A text that has no blanks around it and, where it may be absent, is not empty.
abbrev pub IsKept : Option Text → Type 0
IsKept none = Unit
IsKept (some text) = (trim text ≡ text) × (truthy text ≡ true)

abbrev pub IsConfig : {J : Type 0} → Json J → Option J → Type 0
IsConfig json none = Unit
IsConfig json (some value) = json.is_object value ≡ true

-- A package that the form gives back. The service also stores others: an empty text becomes none,
-- and blanks around a text are left out.
pub record IsStable {J : Type 0} (json : Json J) (p : PromptPackage J) : Type 0 where
  pub name : trim p.name ≡ p.name
  pub version : trim p.version ≡ p.version
  pub system_message : IsKept p.system_message
  pub change_log : IsKept p.change_log
  pub output_format : IsConfig json p.output_format
  pub response_parser : IsConfig json p.response_parser
  pub scoring_rule : IsConfig json p.scoring_rule

-- The fields of a package that a request has.
abbrev pub request_of : {J : Type 0} → PromptPackage J → PromptPackageCreatePayload J
request_of p = record {
  name = p.name;
  version = p.version;
  prompt_type = p.prompt_type;
  system_message = p.system_message;
  user_template = p.user_template;
  few_shot_examples = p.few_shot_examples;
  output_format = p.output_format;
  response_parser = p.response_parser;
  scoring_rule = p.scoring_rule;
  change_log = p.change_log;
}

trim-nil : trim [] ≡ []
unfolding trim drop_start drop_end
trim-nil = refl

kept : (o : Option Text) → IsKept o → non_empty (trim (or_else o [])) ≡ o
kept none h = rw trim-nil refl
kept (some []) (same, full) = cc
kept (some (c ∷ s)) (same, full) = rw same refl

or_else-written : (s fallback : Text) → truthy (trim s) ≡ true → or_else (non_empty s) fallback ≡ s
or_else-written [] fallback h = cc (trim-nil, h)
or_else-written (c ∷ s) fallback h = refl

module _ {J : Type 0} {json : Json J} (laws : JsonLaws json) where
  optional_object-json_value :
      (value : Option J)
      → IsConfig json value
      → optional_object json (json_value json value) ≡ ok value
  unfolding optional_object
  optional_object-json_value none h = rw trim-nil refl
  optional_object-json_value (some value) h =
      rw (laws.written value, laws.parse-stringify value, h) refl

  examples-json_value :
      (values : List J) → examples json (json_value json (some (json.array values))) ≡ ok values
  unfolding examples
  examples-json_value values =
      let text = json.stringify (json.array values) in
      let given = or_else-written text (codes "[]") (laws.written (json.array values)) in
      rw (given, laws.parse-stringify (json.array values), examples, laws.items-array values) refl

  -- Saving the form of a package unchanged asks for just this package, if its texts but the template
  -- have no blanks around them, its optional texts are not empty, its configurations are objects, and
  -- JSON is read back as it was written, not as blanks.
  pub prompt_package_payload-prompt_package_form :
      (p : PromptPackage J)
      → IsStable json p
      → prompt_package_payload json (prompt_package_form json p) ≡ ok (request_of p)
  unfolding prompt_package_payload prompt_package_form
  prompt_package_payload-prompt_package_form p s =
      rw
        (
          examples-json_value p.few_shot_examples,
          optional_object-json_value p.output_format s.output_format,
          optional_object-json_value p.response_parser s.response_parser,
          optional_object-json_value p.scoring_rule s.scoring_rule,
          s.name,
          s.version,
          kept p.system_message s.system_message,
          kept p.change_log s.change_log,
        )
        refl
