-- ===== src/Logs/Partition.antt =====
-- What the groups of the log hold.
use llm_evaluation.Prelude.{◌≡◌, ◌≢◌, Option, List, [], Text, opt_eq, opt_eq_iff, keep, All}
use llm_evaluation.Prelude.Sorting.{Ordered}
use llm_evaluation.Prelude.Grouping.{rows_of, rows_of-group_from, group_from-IsGrouped}
use llm_evaluation.Types.Runs.{RunLogEntry}
use llm_evaluation.Logs.{group_logs_by_task, task_key}

-- The group of a task, or of none, holds its entries in the order of the log; no two groups have one
-- task, and none is empty.
pub group_logs_by_task-partition :
    {J : Type 0} (entries : List (RunLogEntry J))
    → let groups = group_logs_by_task entries in
      ((task : Option Text)
        → rows_of opt_eq task groups ≡ keep (λ entry. opt_eq entry.task_id task) entries)
      × Ordered (λ g h. g.0 ≢ h.0) groups
      × All (λ g. g.1 ≢ []) groups
unfolding group_logs_by_task rows_of
group_logs_by_task-partition entries =
    let grouped = group_from-IsGrouped opt_eq opt_eq_iff task_key [] entries (tt, tt) in
    (λ task. rows_of-group_from opt_eq opt_eq_iff task_key task [] entries, grouped.0, grouped.1)
