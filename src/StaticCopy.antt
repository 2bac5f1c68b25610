-- ===== src/StaticCopy.antt =====
-- frontend/src/i18n/StaticCopy.tsx: what StaticCopy writes into the texts and attributes of the
-- document, and when it stops. The document is what the code reads of it: the texts with their
-- parents and the attributes of the elements. That an element stands inside one of the protected ones
-- (`closest`) is a field, for the browser decides it; `toLowerCase` is a parameter.
pub mod Observer
pub mod Shows
pub mod Refines
mod Examples
use llm_evaluation.Prelude.{
  ℕ, zero, suc, Bool, true, false, not, ◌&&◌, ◌||◌, if◌then◌else◌, Option, none, some, List, [],
  ◌∷◌, map, any, truthy, Text, codes, text_eq, includes, trim,
}
use llm_evaluation.Catalog.{Locale}
use llm_evaluation.Copy.{Tables, translate_static_text}

abbrev pub server_status_values : List Text
server_status_values = map codes (
    "available" ∷ "unavailable" ∷ "pending" ∷ "queued" ∷ "running" ∷ "paused" ∷ "completed"
    ∷ "completed_with_errors" ∷ "cancelled" ∷ "failed" ∷ "ready" ∷ "downloading" ∷ "waiting"
    ∷ "disabled" ∷ "enabled" ∷ "registered" ∷ "deprecated" ∷ "broken" ∷ "supported" ∷ "unsupported"
    ∷ "unknown" ∷ "succeeded" ∷ "unreviewed" ∷ "reviewed" ∷ "adjudicated" ∷ [])

abbrev pub static_option_values : List Text
static_option_values = map codes (
    "" ∷ "openai_chat_completions" ∷ "openai_responses" ∷ "anthropic_messages"
    ∷ "gemini_generate_content" ∷ "azure_openai_chat_completions" ∷ "ollama_chat"
    ∷ "custom_http_json" ∷ "unknown" ∷ "supported" ∷ "unsupported" ∷ "official" ∷ "platform_default"
    ∷ "user_custom" ∷ "benchmark_variant" ∷ "language_specific" ∷ "all" ∷ "succeeded" ∷ "failed"
    ∷ "pending" ∷ "running" ∷ "correct" ∷ "incorrect" ∷ "any" ∷ "api" ∷ "parser" ∷ "disagreement"
    ∷ "agreement" ∷ "unreviewed" ∷ "reviewed" ∷ "adjudicated" ∷ "latency" ∷ "tokens" ∷ "cost"
    ∷ "primary" ∷ "secondary" ∷ "viewer" ∷ "reviewer" ∷ "evaluator" ∷ "admin" ∷ "single_model"
    ∷ "multi_model_comparison" ∷ "regression" ∷ "prompt_comparison" ∷ "benchmark" ∷ "reliability"
    ∷ "human_review" ∷ [])

-- The parent of a text. `value` is the attribute of an option.
pub record Parent : Type 0 where
  pub inside_protected : Bool
  pub is_option : Bool
  pub value : Option Text

-- What the maps `textState` and `attributeState` hold: the text in English and the one last written.
pub record Entry : Type 0 where
  pub source : Text
  pub last : Text

-- A text of the document, with its entry.
pub record Shown : Type 0 where
  pub text : Text
  pub entry : Option Entry

pub record TextNode : Type 0 where
  pub parent : Parent
  pub shown : Shown

pub record Attribute : Type 0 where
  pub value : Option Text
  pub entry : Option Entry

pub record Element : Type 0 where
  pub inside_protected : Bool
  pub placeholder : Attribute
  pub aria_label : Attribute
  pub title : Attribute

pub record Document : Type 0 where
  pub texts : List TextNode
  pub elements : List Element

unfoldable pub has_foreign_value : Option Text → Bool
has_foreign_value none = false
has_foreign_value (some value) = not (includes static_option_values value)

unfoldable pub source_of : Option Entry → Text → Text
source_of none current = current
source_of (some previous) current =
    if text_eq current previous.last then previous.source else current

unfoldable pub translated : Tables → Locale → Text → Text
translated t Locale.en source = source
translated t locale source = translate_static_text t locale source

unfoldable pub rewrite : Tables → Locale → Shown → Shown
rewrite t locale s =
    let source = source_of s.entry s.text in
    record {
      text = translated t locale source;
      entry = some (record { source = source; last = translated t locale source });
    }

unfoldable pub pass_value : Tables → Locale → Option Text → Option Entry → Attribute
pass_value t locale none entry = record { value = none; entry = entry }
pass_value t locale (some current) entry =
    if truthy current
    then (let s = rewrite t locale (record { text = current; entry = entry }) in
        record { value = some s.text; entry = s.entry })
    else record { value = some current; entry = entry }

unfoldable pub writes_value : Tables → Locale → Option Text → Option Entry → Bool
writes_value t locale none entry = false
writes_value t locale (some current) entry =
    truthy current
    && not (text_eq (rewrite t locale (record { text = current; entry = entry })).text current)

unfoldable pub pass_element : Tables → Locale → Element → Element
pass_element t locale e = if e.inside_protected then e else record e {
  placeholder = pass_value t locale e.placeholder.value e.placeholder.entry;
  aria_label = pass_value t locale e.aria_label.value e.aria_label.entry;
  title = pass_value t locale e.title.value e.title.entry;
}

unfoldable pub writes_element : Tables → Locale → Element → Bool
writes_element t locale e =
    not e.inside_protected
    && (writes_value t locale e.placeholder.value e.placeholder.entry
        || writes_value t locale e.aria_label.value e.aria_label.entry
        || writes_value t locale e.title.value e.title.entry)

module _ (to_lower_case : Text → Text) where
  unfoldable pub is_protected : Parent → Text → Bool
  is_protected p text =
      p.inside_protected
      || p.is_option && has_foreign_value p.value
      || not p.is_option && includes server_status_values (to_lower_case (trim text))

  -- The texts that a pass leaves alone.
  unfoldable pub is_kept : Parent → Text → Bool
  is_kept p text = is_protected p text || not (truthy (trim text))

  module _ (t : Tables) (locale : Locale) where
    unfoldable pub pass_text : TextNode → TextNode
    pass_text n =
        if is_kept n.parent n.shown.text then n else record n { shown = rewrite t locale n.shown }

    unfoldable pub writes_text : TextNode → Bool
    writes_text n =
        not (is_kept n.parent n.shown.text)
        && not (text_eq (rewrite t locale n.shown).text n.shown.text)

    unfoldable pub pass : Document → Document
    pass d = record {
      texts = map pass_text d.texts;
      elements = map (pass_element t locale) d.elements;
    }

    -- The pass changes the document, so the observer is called again.
    unfoldable pub writes : Document → Bool
    writes d = any writes_text d.texts || any (writes_element t locale) d.elements

    -- The observer after a change of the document, for at most so many calls.
    unfoldable pub observe : ℕ → Document → Option Document
    observe zero d = none
    observe (suc calls) d =
        let rest = observe calls (pass d) in if writes d then rest else some (pass d)
