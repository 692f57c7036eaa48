-- ===== src/Security/Analyzer.antt =====
-- `analyzeReport`: server/core/src/security/analyzer.ts.
use Prim.Native.String
use pmeow.Prelude.{ℕ, String, Bool, List, [], ◌∷◌, ◌++◌, none, some, if◌then◌else◌, ltb, find}
use pmeow.Security.Types.{
  SecurityEventType, suspicious_process, unowned_gpu, event_name, SecurityFinding, ProcessInfo,
  UnknownProcess, GpuProcesses, Platform,
}

-- The text that is hashed: the type, then each part behind a bar.
abbrev pub joined : List String → String
joined [] = ""
joined (part ∷ parts) = String.◌++◌ "|" (String.◌++◌ part (joined parts))

module _ (js : Platform) (sid : String) where
  unfoldable pub generate_fingerprint : SecurityEventType → List String → String
  generate_fingerprint kind parts = js.sha256_hex (String.◌++◌ (event_name kind) (joined parts))

  -- The first keyword that the command contains, letter case aside.
  abbrev pub matches : ProcessInfo → String → Bool
  matches proc keyword = js.includes (js.to_lower_case proc.command) (js.to_lower_case keyword)

  abbrev pub mining_finding : ProcessInfo → String → SecurityFinding
  mining_finding proc keyword = record {
    server_id = sid;
    event_type = suspicious_process;
    fingerprint = generate_fingerprint suspicious_process (proc.command ∷ proc.user ∷ []);
    details = record {
      reason = String.◌++◌ "Process matched mining keyword: " keyword;
      pid = some proc.pid;
      user = some proc.user;
      command = some proc.command;
      gpu_index = none;
      task_id = none;
      keyword = some keyword;
      target_event_id = none;
      duration_minutes = none;
      used_memory_mb = none;
      gpu_utilization_percent = none;
    };
  }

  unfoldable pub process_findings : List String → List ProcessInfo → List SecurityFinding
  process_findings keywords [] = []
  process_findings keywords (proc ∷ rest) =
      elim (find (matches proc) keywords) [
        | none ↦ []
        | some keyword ↦ mining_finding proc keyword ∷ []
      ]
      ++ process_findings keywords rest

  abbrev pub gpu_finding : ℕ → UnknownProcess → SecurityFinding
  gpu_finding index unknown = record {
    server_id = sid;
    event_type = unowned_gpu;
    fingerprint =
        generate_fingerprint unowned_gpu (js.string_of index ∷ js.string_of unknown.pid ∷ []);
    details = record {
      reason = String.◌++◌ "Unknown process using GPU " (js.string_of index);
      pid = some unknown.pid;
      user = none;
      command = none;
      gpu_index = some index;
      task_id = none;
      keyword = none;
      target_event_id = none;
      duration_minutes = none;
      used_memory_mb = some unknown.vram_mb;
      gpu_utilization_percent = none;
    };
  }

  unfoldable pub unknown_findings : ℕ → List UnknownProcess → List SecurityFinding
  unknown_findings index [] = []
  unknown_findings index (unknown ∷ rest) =
      let later = unknown_findings index rest in
      if ltb 100 unknown.vram_mb then gpu_finding index unknown ∷ later else later

  unfoldable pub gpu_findings : List GpuProcesses → List SecurityFinding
  gpu_findings [] = []
  gpu_findings (gpu ∷ rest) = unknown_findings gpu.index gpu.unknown_processes ++ gpu_findings rest

  unfoldable pub analyze_report :
      List String → List ProcessInfo → List GpuProcesses → List SecurityFinding
  analyze_report keywords processes gpus = process_findings keywords processes ++ gpu_findings gpus
