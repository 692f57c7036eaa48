-- ===== src/Tasks/Types.antt =====
-- Tasks and schedule evaluations: server/contracts/src/types.ts. Times are whole seconds, and a JSON
-- value that the server only stores is kept as its text.
use pmeow.Prelude.{ℕ, String, Bool, true, false, List, Option, ℤ}

pub data TaskStatus : Type 0 where
  queued running succeeded failed cancelled abnormal : TaskStatus

pub data LaunchMode : Type 0 where
  background foreground : LaunchMode

pub data VramMode : Type 0 where
  exclusive_auto shared : VramMode

pub data EvaluationResult : Type 0 where
  scheduled blocked_by_priority insufficient_gpu sustained_window_not_met : EvaluationResult

pub record ScheduleEvaluation : Type 0 where
  pub timestamp : ℕ
  pub result : EvaluationResult
  pub gpu_snapshot : String
  pub detail : String

pub record TaskInfo : Type 0 where
  pub task_id : String
  pub status : TaskStatus
  pub command : String
  pub cwd : String
  pub user : String
  pub launch_mode : LaunchMode
  pub require_vram_mb : ℕ
  pub requested_vram_mb : Option ℕ
  pub vram_mode : VramMode
  pub require_gpu_count : ℕ
  pub gpu_ids : Option (List ℕ)
  pub priority : ℤ
  pub created_at : ℕ
  pub started_at : Option ℕ
  pub finished_at : Option ℕ
  pub pid : Option ℕ
  pub exit_code : Option ℤ
  pub end_reason : Option String
  pub assigned_gpus : Option (List ℕ)
  pub declared_vram_per_gpu : Option ℕ
  pub auto_observe_window_sec : Option ℕ
  pub auto_peak_vram_by_gpu_mb : Option String
  pub auto_reclaimed_vram_by_gpu_mb : Option String
  pub auto_reclaim_done : Bool
  pub schedule_history : List ScheduleEvaluation

abbrev pub is_running : TaskStatus → Bool
is_running running = true
is_running _ = false

abbrev pub is_queued : TaskStatus → Bool
is_queued queued = true
is_queued _ = false

abbrev pub is_abnormal : TaskStatus → Bool
is_abnormal abnormal = true
is_abnormal _ = false
