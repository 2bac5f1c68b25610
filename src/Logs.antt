-- ===== src/Logs.antt =====
-- frontend/src/components/runs/RunDetailWorkspace.tsx: the log of a run grouped by task. A group that
-- is in both the map and the list is one object, so that the list of groups is the map in the order of
-- its keys; entries without a task have a group of their own.
pub mod Partition
mod Examples
use llm_evaluation.Prelude.{Option, some, List, [], Text, opt_eq}
use llm_evaluation.Prelude.Grouping.{Groups, group_from}
use llm_evaluation.Types.Runs.{RunLogEntry}

abbrev pub task_key : {J : Type 0} → RunLogEntry J → Option (Option Text)
task_key entry = some entry.task_id

pub group_logs_by_task : {J : Type 0} → List (RunLogEntry J) → Groups (Option Text) (RunLogEntry J)
group_logs_by_task entries = group_from opt_eq task_key [] entries
