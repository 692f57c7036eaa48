-- ===== src/Tasks/Store.antt =====
-- The table `tasks` and its upsert: server/core/src/db/tasks.ts and server/core/src/db/database.ts.
use pmeow.Prelude.{
  String, Bool, List, [], ◌∷◌, ◌++◌, Option, ◌==◌, string_eq, if◌then◌else◌, any, find,
  update_where,
}
use pmeow.Tasks.Types.{TaskInfo}

-- The column `id` is the task's own.
pub record TaskRow : Type 0 where
  pub server_id : String
  pub info : TaskInfo

abbrev pub is_row : String → TaskRow → Bool
is_row id r = r.info.task_id == id

-- DO UPDATE SET: what is not listed keeps the value of the first insert.
abbrev pub merge : String → TaskInfo → TaskRow → TaskRow
merge sid task row = record {
  server_id = sid;
  info = record (row.info) {
    status = task.status;
    requested_vram_mb = task.requested_vram_mb;
    vram_mode = task.vram_mode;
    started_at = task.started_at;
    finished_at = task.finished_at;
    pid = task.pid;
    exit_code = task.exit_code;
    assigned_gpus = task.assigned_gpus;
    declared_vram_per_gpu = task.declared_vram_per_gpu;
    auto_observe_window_sec = task.auto_observe_window_sec;
    auto_peak_vram_by_gpu_mb = task.auto_peak_vram_by_gpu_mb;
    auto_reclaimed_vram_by_gpu_mb = task.auto_reclaimed_vram_by_gpu_mb;
    auto_reclaim_done = task.auto_reclaim_done;
    schedule_history = task.schedule_history;
    priority = task.priority;
    end_reason = task.end_reason;
  };
}

unfoldable pub upsert_task : String → TaskInfo → List TaskRow → List TaskRow
upsert_task sid task rows =
    if any (is_row task.task_id) rows
    then update_where (is_row task.task_id) (merge sid task) rows
    else rows ++ record { server_id = sid; info = task } ∷ []

unfoldable pub get_task_by_id : String → List TaskRow → Option TaskRow
get_task_by_id id rows = find (is_row id) rows
