-- ===== src/Logs/Examples.antt =====
-- A short log.
use Prim.Native.Nat.{ℕ}
use llm_evaluation.Prelude.{
  ◌≡◌, ◌≢◌, refl, Option, some, none, List, [], ◌∷◌, Text, codes, text_eq, opt_eq, keep, All,
}
use llm_evaluation.Prelude.Sorting.{Ordered}
use llm_evaluation.Prelude.Grouping.{rows_of, group_from, push_group, place}
use llm_evaluation.Types.Runs.{RunLogEntry}
use llm_evaluation.Logs.{group_logs_by_task}
use llm_evaluation.Logs.Partition.{group_logs_by_task-partition}

abbrev entry : Option Text → ℕ → RunLogEntry ℕ
entry task n = record {
  timestamp = [];
  level = codes "info";
  event = [];
  message = [];
  task_id = task;
  sample_attempt_id = none;
  details = n;
}

abbrev log : List (RunLogEntry ℕ)
log = entry none 1 ∷ entry (some (codes "a")) 2 ∷ entry none 3 ∷ []

two_groups :
    group_logs_by_task log
    ≡ (none, entry none 1 ∷ entry none 3 ∷ [])
      ∷ (some (codes "a"), entry (some (codes "a")) 2 ∷ [])
      ∷ []
unfolding group_logs_by_task group_from push_group place text_eq
two_groups = refl

group_logs_by_task-partition_example :
    let groups = group_logs_by_task log in
    ((task : Option Text) → rows_of opt_eq task groups ≡ keep (λ e. opt_eq e.task_id task) log)
    × Ordered (λ g h. g.0 ≢ h.0) groups
    × All (λ g. g.1 ≢ []) groups
group_logs_by_task-partition_example = group_logs_by_task-partition log
