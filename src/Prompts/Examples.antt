-- ===== src/Prompts/Examples.antt =====
-- A package and its form, with texts as values: each is written behind a brace, and an array marks
-- the end of an item by 0 and each character of one by 1.
use llm_evaluation.Prelude.{
  ℕ, zero, suc, ◌≡◌, refl, ap, true, ◌==◌, if◌then◌else◌, Option, none, some, List, [], ◌∷◌, Text,
  codes, truthy, trim, is_space, drop_start, drop_end, cut, arith,
}
use llm_evaluation.Types.Datasets.{PromptPackage}
use llm_evaluation.Prompts.{
  Json, ok, throws, invalid_json, optional_object, prompt_package_form, prompt_package_payload,
}
use llm_evaluation.Prompts.RoundTrip.{
  JsonLaws, IsStable, request_of, prompt_package_payload-prompt_package_form,
}

abbrev join : List Text → Text
join [] = []
join ([] ∷ ts) = 0 ∷ join ts
join ((c ∷ t) ∷ ts) = 1 ∷ c ∷ join (t ∷ ts)

abbrev push : ℕ → List Text → List Text
push c [] = (c ∷ []) ∷ []
push c (t ∷ ts) = (c ∷ t) ∷ ts

abbrev split : Text → List Text
split [] = []
split (zero ∷ s) = [] ∷ split s
split (suc n ∷ []) = []
split (suc n ∷ c ∷ s) = push c (split s)

split-join : (ts : List Text) → split (join ts) ≡ ts
split-join [] = refl
split-join ([] ∷ ts) = ap (◌∷◌ []) (split-join ts)
split-join ((c ∷ t) ∷ ts) = ap (push c) (split-join (t ∷ ts))

abbrev read : Text → Option Text
read [] = none
read (c ∷ s) = if c == 123 then some s else none

abbrev braced : Json Text
braced = record {
  parse = read;
  stringify = λ value. 123 ∷ value;
  array = join;
  items = λ value. some (split value);
  is_object = λ value. true;
}

braced-written : (value : Text) → truthy (trim (123 ∷ value)) ≡ true
unfolding trim is_space drop_start drop_end cut
braced-written value = ground arith

braced-JsonLaws : JsonLaws braced
braced-JsonLaws = record {
  parse-stringify = λ value. refl;
  items-array = λ values. ap some (split-join values);
  written = braced-written;
}

abbrev greeting : PromptPackage Text
greeting = record {
  id = codes "p1";
  name = codes "Greeting";
  version = codes "2";
  prompt_type = codes "user_custom";
  system_message = some (codes "Be brief.");
  user_template = codes " {{question}} ";
  few_shot_examples = codes "a" ∷ codes "b" ∷ [];
  output_format = some (codes "json");
  response_parser = none;
  scoring_rule = none;
  change_log = none;
  created_at = [];
}

greeting-IsStable : IsStable braced greeting
unfolding trim is_space drop_start drop_end cut
greeting-IsStable = record {
  name = refl;
  version = refl;
  system_message = (refl, refl);
  change_log = tt;
  output_format = refl;
  response_parser = tt;
  scoring_rule = tt;
}

-- A configuration that is no JSON is refused.
no_json : optional_object braced (codes "json") ≡ throws invalid_json
unfolding optional_object trim is_space drop_start drop_end cut
no_json = refl

prompt_package_payload-prompt_package_form_example :
    prompt_package_payload braced (prompt_package_form braced greeting) ≡ ok (request_of greeting)
prompt_package_payload-prompt_package_form_example =
    prompt_package_payload-prompt_package_form braced-JsonLaws greeting greeting-IsStable
