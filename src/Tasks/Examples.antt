-- ===== src/Tasks/Examples.antt =====
-- The task engine at concrete reports, and the theorems about it.

use pmeow.Prelude.{
  String, true, false, List, [], ◌∷◌, none, some, ◌≡◌, refl, string_eq, nat_eq, ◌==◌, any, pos,
  sort,
}
use pmeow.Tasks.Types.{
  TaskInfo, TaskStatus, queued, running, abnormal, background, shared, scheduled,
  ScheduleEvaluation,
}
use pmeow.Tasks.Differ.{submitted, started, ended, diff_tasks}
use pmeow.Tasks.Events.{reports, diff_tasks-events}
use pmeow.Tasks.Schedule.{
  get_task_schedule_history, upsert_task_schedule_snapshot, get_latest_schedule_evaluation,
}
use pmeow.Tasks.Engine.{TaskQueue, TaskDb, process_report}
use pmeow.Tasks.Statuses.{status_in, process_report-status}
use pmeow.Tasks.History.{get_task_schedule_history-latest}

abbrev evaluation : ScheduleEvaluation
evaluation = record { timestamp = 1000; result = scheduled; gpu_snapshot = "{}"; detail = "" }

abbrev task : String → TaskStatus → TaskInfo
task id status = record {
  task_id = id;
  status = status;
  command = "run";
  cwd = "/";
  user = "ann";
  launch_mode = background;
  require_vram_mb = 0;
  requested_vram_mb = none;
  vram_mode = shared;
  require_gpu_count = 1;
  gpu_ids = none;
  priority = pos 10;
  created_at = 900;
  started_at = none;
  finished_at = none;
  pid = none;
  exit_code = none;
  end_reason = none;
  assigned_gpus = none;
  declared_vram_per_gpu = none;
  auto_observe_window_sec = none;
  auto_peak_vram_by_gpu_mb = none;
  auto_reclaimed_vram_by_gpu_mb = none;
  auto_reclaim_done = false;
  schedule_history = evaluation ∷ [];
}

-- Before, "a" waits and "b" runs; now "a" runs, "c" waits, and "b" has disappeared.
abbrev before : List TaskInfo
before = task "a" queued ∷ task "b" running ∷ []

abbrev now_active : List TaskInfo
now_active = task "c" queued ∷ task "a" running ∷ []

diff_tasks-events_example :
    (reports submitted "c" (diff_tasks "s" 1010 before now_active []) ≡ true)
    × (reports started "c" (diff_tasks "s" 1010 before now_active []) ≡ false)
    × (reports ended "c" (diff_tasks "s" 1010 before now_active []) ≡ false)
diff_tasks-events_example = diff_tasks-events "s" "c" 1010 before now_active []

abbrev earlier : TaskQueue
earlier = record {
  queued = task "a" queued ∷ [];
  running = task "b" running ∷ [];
  recently_ended = [];
}

abbrev later : TaskQueue
later = record {
  queued = task "c" queued ∷ [];
  running = task "a" running ∷ [];
  recently_ended = [];
}

abbrev no_rows : TaskDb
no_rows = record { tasks = []; schedule = [] }

process_report-status_example :
    status_in "b" (process_report "s" 1010 1010 (some earlier) later no_rows).0.tasks
    ≡ some abnormal
process_report-status_example = process_report-status "s" "b" 1010 1010 (some earlier) later no_rows

-- A task that has ended, and one that runs, are queued again when a report says so.
queued_again :
    (status_in "a"
        (process_report "s" 1010 1010 none
          (record { queued = task "a" queued ∷ []; running = []; recently_ended = [] })
          (process_report "s" 1010 1010 none
            (record { queued = []; running = []; recently_ended = task "a" abnormal ∷ [] })
            no_rows).0).0.tasks
      ≡ some queued)
    × (status_in "a"
          (process_report "s" 1010 1010
            (some later)
            (record { queued = task "a" queued ∷ []; running = []; recently_ended = [] })
            (process_report "s" 1010 1010 none later no_rows).0).0.tasks
        ≡ some queued)
unfolding process_report pmeow.Tasks.Store.get_task_by_id pmeow.Tasks.Engine.persist_gone diff_tasks
    pmeow.Tasks.Differ.active_events pmeow.Tasks.Differ.compare_task pmeow.Tasks.Differ.fill_tasks
    pmeow.Tasks.Differ.ended_events pmeow.Tasks.Differ.gone_events pmeow.Tasks.Engine.persist_all
    pmeow.Tasks.Store.upsert_task
queued_again = (refl, refl)

get_task_schedule_history-latest_example :
    any
      (λ e. e.timestamp == 1000)
      (get_task_schedule_history "a" [] 1400
        (upsert_task_schedule_snapshot "s" (task "a" running) 1400 []))
    ≡ true
unfolding get_latest_schedule_evaluation sort
get_task_schedule_history-latest_example =
    get_task_schedule_history-latest "s" (task "a" running) 1400 [] [] evaluation
      (λ e. e.timestamp == 1000) refl refl
