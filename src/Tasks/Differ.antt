-- ===== src/Tasks/Differ.antt =====
-- `diffTasks`: server/core/src/task/differ.ts, with the event types of
-- server/core/src/task/events.ts.
use pmeow.Prelude.{
  ℕ, String, not, ◌&&◌, List, [], ◌∷◌, ◌++◌, Option, none, some, string_eq, if◌then◌else◌, map_get,
  map_set, map_has,
}
use pmeow.Tasks.Types.{TaskInfo, abnormal, is_running, is_queued}

pub data TaskEventType : Type 0 where
  submitted started ended : TaskEventType

pub record TaskDiffResult : Type 0 where
  pub event_type : TaskEventType
  pub task : TaskInfo
  pub server_id : String

-- `new Map(tasks.map(t => [t.taskId, t]))`
unfoldable pub fill_tasks : List (String × TaskInfo) → List TaskInfo → List (String × TaskInfo)
fill_tasks m [] = m
fill_tasks m (t ∷ ts) = fill_tasks (map_set t.task_id t m) ts

abbrev pub map_of_tasks : List TaskInfo → List (String × TaskInfo)
map_of_tasks ts = fill_tasks [] ts

abbrev pub event : TaskEventType → TaskInfo → String → TaskDiffResult
event kind task sid = record { event_type = kind; task = task; server_id = sid }

module _ (sid : String) where
  -- The body of the first loop.
  unfoldable pub compare_task : Option TaskInfo → TaskInfo → List TaskDiffResult
  compare_task none curr =
      event submitted curr sid
      ∷ (if is_running curr.status then event started curr sid ∷ [] else [])
  compare_task (some prev) curr =
      if is_queued prev.status && is_running curr.status then event started curr sid ∷ [] else []

  unfoldable pub active_events : List (String × TaskInfo) → List TaskInfo → List TaskDiffResult
  active_events prev_map [] = []
  active_events prev_map (curr ∷ rest) =
      compare_task (map_get curr.task_id prev_map) curr ++ active_events prev_map rest

  unfoldable pub ended_events : List TaskInfo → List TaskDiffResult
  ended_events [] = []
  ended_events (t ∷ ts) = event ended t sid ∷ ended_events ts

  abbrev pub disappeared : ℕ → TaskInfo → TaskInfo
  disappeared now prev = record prev {
    status = abnormal;
    finished_at = some now;
    exit_code = none;
    end_reason = some "disappeared";
  }

  unfoldable pub gone_events :
      ℕ → List (String × TaskInfo) → List (String × TaskInfo) → List TaskInfo → List TaskDiffResult
  gone_events now curr_map ended_map [] = []
  gone_events now curr_map ended_map (prev ∷ rest) =
      if not (map_has prev.task_id curr_map) && not (map_has prev.task_id ended_map)
      then event ended (disappeared now prev) sid ∷ gone_events now curr_map ended_map rest
      else gone_events now curr_map ended_map rest

  unfoldable pub diff_tasks :
      ℕ → List TaskInfo → List TaskInfo → List TaskInfo → List TaskDiffResult
  diff_tasks now previous current recently_ended =
      active_events (map_of_tasks previous) current
      ++ (ended_events recently_ended
          ++ gone_events now (map_of_tasks current) (map_of_tasks recently_ended) previous)
