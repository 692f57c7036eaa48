-- ===== src/Security/Types.antt =====
-- Security events and what a report says about processes: server/contracts/src/types.ts and the
-- table `security_events` of server/core/src/db/database.ts.
use pmeow.Prelude.{ℕ, String, Bool, List, Option, nat_eq, string_eq}

pub data SecurityEventType : Type 0 where
  suspicious_process unowned_gpu high_gpu_utilization marked_safe unresolve : SecurityEventType

-- The texts of the column `event_type`.
abbrev pub event_name : SecurityEventType → String
event_name suspicious_process = "suspicious_process"
event_name unowned_gpu = "unowned_gpu"
event_name high_gpu_utilization = "high_gpu_utilization"
event_name marked_safe = "marked_safe"
event_name unresolve = "unresolve"

pub record SecurityEventDetails : Type 0 where
  pub reason : String
  pub pid : Option ℕ
  pub user : Option String
  pub command : Option String
  pub gpu_index : Option ℕ
  pub task_id : Option String
  pub keyword : Option String
  pub target_event_id : Option ℕ
  pub duration_minutes : Option ℕ
  pub used_memory_mb : Option ℕ
  pub gpu_utilization_percent : Option ℕ

pub record SecurityFinding : Type 0 where
  pub server_id : String
  pub event_type : SecurityEventType
  pub fingerprint : String
  pub details : SecurityEventDetails

pub record SecurityEventRecord : Type 0 where
  pub id : ℕ
  pub server_id : String
  pub event_type : SecurityEventType
  pub fingerprint : String
  pub details : SecurityEventDetails
  pub resolved : Bool
  pub resolved_by : Option String
  pub created_at : ℕ
  pub resolved_at : Option ℕ

-- The table with its AUTOINCREMENT counter.
pub record SecurityDb : Type 0 where
  pub rows : List SecurityEventRecord
  pub next_id : ℕ

pub record ProcessInfo : Type 0 where
  pub pid : ℕ
  pub user : String
  pub command : String

pub record UnknownProcess : Type 0 where
  pub pid : ℕ
  pub vram_mb : ℕ

pub record GpuProcesses : Type 0 where
  pub index : ℕ
  pub unknown_processes : List UnknownProcess

-- What of the platform the component uses: `toLowerCase`, `includes`, `String` of a number, SHA-256.
pub record Platform : Type 0 where
  pub to_lower_case : String → String
  pub includes : String → String → Bool
  pub string_of : ℕ → String
  pub sha256_hex : String → String
