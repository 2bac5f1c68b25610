-- ===== src/Metrics.antt =====
-- frontend/src/metrics.ts: the metrics, with their labels, units and profiles.
use llm_evaluation.Prelude.{List, [], ◌∷◌, Text, codes}

pub data MetricId : Type 0 where
  score accuracy precision_macro recall_macro f1_macro : MetricId
  exact_match normalized_exact_match token_f1 bleu rouge_l : MetricId
  llm_judge pass_at_1 perplexity completion_rate success_rate : MetricId
  error_rate average_latency_ms p50_latency_ms p95_latency_ms p99_latency_ms : MetricId
  input_tokens output_tokens estimated_cost : MetricId

pub data MetricUnit : Type 0 where
  ratio perplexity milliseconds tokens currency : MetricUnit

pub data MetricProfile : Type 0 where
  all classification generation code language_modeling operational : MetricProfile

pub record MetricDefinition : Type 0 where
  pub label : Text
  pub unit : MetricUnit
  pub profile : MetricProfile

abbrev defined : Text → MetricUnit → MetricProfile → MetricDefinition
defined label unit profile = record { label = label; unit = unit; profile = profile }

unfoldable pub metric_definition : MetricId → MetricDefinition
metric_definition score = defined (codes "Primary score") ratio all
metric_definition accuracy = defined (codes "Accuracy") ratio classification
metric_definition precision_macro = defined (codes "Macro precision") ratio classification
metric_definition recall_macro = defined (codes "Macro recall") ratio classification
metric_definition f1_macro = defined (codes "Macro F1") ratio classification
metric_definition exact_match = defined (codes "Exact match") ratio generation
metric_definition normalized_exact_match = defined (codes "Normalized exact match") ratio generation
metric_definition token_f1 = defined (codes "Token F1") ratio generation
metric_definition bleu = defined (codes "BLEU") ratio generation
metric_definition rouge_l = defined (codes "ROUGE-L") ratio generation
metric_definition llm_judge = defined (codes "LLM-as-judge") ratio all
metric_definition pass_at_1 = defined (codes "pass@1") ratio code
metric_definition perplexity = defined (codes "Perplexity") perplexity language_modeling
metric_definition completion_rate = defined (codes "Completion rate") ratio operational
metric_definition success_rate = defined (codes "Success rate") ratio operational
metric_definition error_rate = defined (codes "Error rate") ratio operational
metric_definition average_latency_ms = defined (codes "Average latency") milliseconds operational
metric_definition p50_latency_ms = defined (codes "p50 latency") milliseconds operational
metric_definition p95_latency_ms = defined (codes "p95 latency") milliseconds operational
metric_definition p99_latency_ms = defined (codes "p99 latency") milliseconds operational
metric_definition input_tokens = defined (codes "Input tokens") tokens operational
metric_definition output_tokens = defined (codes "Output tokens") tokens operational
metric_definition estimated_cost = defined (codes "Estimated cost") currency operational

-- The keys of `METRIC_DEFINITIONS`, and their order.
unfoldable pub metric_key : MetricId → Text
metric_key score = codes "score"
metric_key accuracy = codes "accuracy"
metric_key precision_macro = codes "precision_macro"
metric_key recall_macro = codes "recall_macro"
metric_key f1_macro = codes "f1_macro"
metric_key exact_match = codes "exact_match"
metric_key normalized_exact_match = codes "normalized_exact_match"
metric_key token_f1 = codes "token_f1"
metric_key bleu = codes "bleu"
metric_key rouge_l = codes "rouge_l"
metric_key llm_judge = codes "llm_judge"
metric_key pass_at_1 = codes "pass@1"
metric_key perplexity = codes "perplexity"
metric_key completion_rate = codes "completion_rate"
metric_key success_rate = codes "success_rate"
metric_key error_rate = codes "error_rate"
metric_key average_latency_ms = codes "average_latency_ms"
metric_key p50_latency_ms = codes "p50_latency_ms"
metric_key p95_latency_ms = codes "p95_latency_ms"
metric_key p99_latency_ms = codes "p99_latency_ms"
metric_key input_tokens = codes "input_tokens"
metric_key output_tokens = codes "output_tokens"
metric_key estimated_cost = codes "estimated_cost"

abbrev pub metric_ids : List MetricId
metric_ids =
    score ∷ accuracy ∷ precision_macro ∷ recall_macro ∷ f1_macro ∷ exact_match
    ∷ normalized_exact_match ∷ token_f1 ∷ bleu ∷ rouge_l ∷ llm_judge ∷ pass_at_1 ∷ perplexity
    ∷ completion_rate ∷ success_rate ∷ error_rate ∷ average_latency_ms ∷ p50_latency_ms
    ∷ p95_latency_ms ∷ p99_latency_ms ∷ input_tokens ∷ output_tokens ∷ estimated_cost ∷ []
