-- ===== src/Tasks/Engine.antt =====
-- `TaskEngine.processReport`: server/core/src/task/engine.ts.
use pmeow.Prelude.{
  ℕ, String, Bool, true, false, not, ◌&&◌, List, [], ◌∷◌, ◌++◌, Option, none, some, ◌==◌, string_eq,
  if◌then◌else◌, any,
}
use pmeow.Tasks.Types.{TaskInfo}
use pmeow.Tasks.Differ.{TaskEventType, ended, TaskDiffResult, diff_tasks}
use pmeow.Tasks.Store.{TaskRow, upsert_task}
use pmeow.Tasks.Schedule.{ScheduleRow, upsert_task_schedule_snapshot}

pub record TaskQueue : Type 0 where
  pub queued : List TaskInfo
  pub running : List TaskInfo
  pub recently_ended : List TaskInfo

pub record TaskDb : Type 0 where
  pub tasks : List TaskRow
  pub schedule : List ScheduleRow

-- The tables, and the ids that this report has written.
pub record Persisted : Type 0 where
  pub db : TaskDb
  pub ids : List String

abbrev pub has_id : String → List String → Bool
has_id id ids = any (λ i. i == id) ids

abbrev pub active_tasks : TaskQueue → List TaskInfo
active_tasks q = q.queued ++ q.running

abbrev pub previous_tasks : Option TaskQueue → List TaskInfo
previous_tasks none = []
previous_tasks (some q) = active_tasks q

abbrev pub is_ended : TaskEventType → Bool
is_ended ended = true
is_ended _ = false

module _ (sid : String) where
  -- The body of the two loops over the report's tasks.
  unfoldable pub persist_all : ℕ → List TaskInfo → Persisted → Persisted
  persist_all report_timestamp [] p = p
  persist_all report_timestamp (task ∷ rest) p = persist_all report_timestamp rest (record {
    db = record {
      tasks = upsert_task sid task p.db.tasks;
      schedule = upsert_task_schedule_snapshot sid task report_timestamp p.db.schedule;
    };
    ids = task.task_id ∷ p.ids;
  })

  -- The loop over the differences: an end that the report did not list is written now.
  unfoldable pub persist_gone : List TaskDiffResult → Persisted → Persisted
  persist_gone [] p = p
  persist_gone (diff ∷ rest) p = persist_gone rest (
      if is_ended diff.event_type && not (has_id diff.task.task_id p.ids)
      then record {
        db = record (p.db) { tasks = upsert_task sid diff.task p.db.tasks };
        ids = diff.task.task_id ∷ p.ids;
      }
      else p)

  unfoldable pub process_report :
      ℕ → ℕ → Option TaskQueue → TaskQueue → TaskDb → TaskDb × List TaskDiffResult
  process_report now report_timestamp prev curr db =
      let listed =
        persist_all report_timestamp curr.recently_ended
          (persist_all report_timestamp (active_tasks curr) (record { db = db; ids = [] })) in
      let diffs =
        diff_tasks sid now (previous_tasks prev) (active_tasks curr) curr.recently_ended in
      ((persist_gone diffs listed).db, diffs)
