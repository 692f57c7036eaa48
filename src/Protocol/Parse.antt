-- ===== src/Protocol/Parse.antt =====
-- `parseUnifiedReport`: server/contracts/src/protocol.ts.
use pmeow.Prelude.{String, Bool, not, List, [], ◌∷◌, Option, some, string_eq, if◌then◌else◌}
use pmeow.Protocol.Json.{
  Json, Fields, array, object, no_fields, field, get, get_in, put, defined, items_of, every,
  map_items, is_null,
}
use pmeow.Protocol.Guards.{is_unified_report}
use pmeow.Protocol.Tasks.{normalize_task_info}

-- The result: `null`, a report, or a TypeError from reading a property of `null`.
pub data Parsed (V : Type 0) : Type 0 where
  rejected thrown : Parsed V
  parsed : Json V → Parsed V

module _ {V : Type 0} where
  abbrev pub normalize_memory : Option (Json V) → Json V
  normalize_memory memory = object (
      defined (
        ("totalMb", get_in "totalMB" memory)
        ∷ ("usedMb", get_in "usedMB" memory)
        ∷ ("availableMb", get_in "availableMB" memory)
        ∷ ("usagePercent", get_in "usagePercent" memory)
        ∷ ("swapTotalMb", get_in "swapTotalMB" memory)
        ∷ ("swapUsedMb", get_in "swapUsedMB" memory)
        ∷ ("swapPercent", get_in "swapPercent" memory)
        ∷ []))

  abbrev pub normalize_process : Json V → Json V
  normalize_process process = object (
      defined (
        ("pid", get "pid" process)
        ∷ ("ppid", get "ppid" process)
        ∷ ("user", get "user" process)
        ∷ ("cpuPercent", get "cpuPercent" process)
        ∷ ("memPercent", get "memPercent" process)
        ∷ ("rss", get "rss" process)
        ∷ ("command", get "command" process)
        ∷ ("gpuMemoryMb", get "gpuMemoryMB" process)
        ∷ []))

  abbrev pub normalize_summary : Json V → Json V
  normalize_summary summary = object (
      defined (
        ("user", get "user" summary)
        ∷ ("totalCpuPercent", get "totalCpuPercent" summary)
        ∷ ("totalRssMb", get "totalRssMb" summary)
        ∷ ("totalVramMb", get "totalVramMb" summary)
        ∷ ("processCount", get "processCount" summary)
        ∷ []))

  -- `...value`
  abbrev pub spread : Option (Json V) → Fields V
  spread (some (object fs)) = fs
  spread _ = no_fields

  abbrev pub normalize_snapshot : Option (Json V) → Json V
  normalize_snapshot snapshot = object (
      put "processesByUser"
        (array (map_items normalize_summary (items_of (get_in "processesByUser" snapshot))))
        (put "processes"
          (array (map_items normalize_process (items_of (get_in "processes" snapshot))))
          (put "memory" (normalize_memory (get_in "memory" snapshot)) (spread snapshot))))

  module _ (is_finite : V → Bool) where
    abbrev pub normalize_tasks : Option (Json V) → Json V
    normalize_tasks tasks = array (map_items (normalize_task_info is_finite) (items_of tasks))

    abbrev pub normalize_queue : Option (Json V) → Json V
    normalize_queue queue = object (
        field "queued" (normalize_tasks (get_in "queued" queue)) (
          field "running" (normalize_tasks (get_in "running" queue))
            (field "recentlyEnded" (normalize_tasks (get_in "recentlyEnded" queue)) no_fields)))

    abbrev pub report_properties : Json V → List (String × Option (Json V))
    report_properties report =
        ("agentId", get "agentId" report)
        ∷ ("timestamp", get "timestamp" report)
        ∷ ("seq", get "seq" report)
        ∷ ("resourceSnapshot", some (normalize_snapshot (get "resourceSnapshot" report)))
        ∷ ("taskQueue", some (normalize_queue (get "taskQueue" report)))
        ∷ []

    abbrev pub normalize_report : Json V → Json V
    normalize_report report = object (defined (report_properties report))

    -- A process that is `null` has no properties to read.
    unfoldable pub parse_unified_report : Json V → Parsed V
    unfolding is_unified_report normalize_task_info
    parse_unified_report data' =
        if not (is_unified_report data')
        then rejected
        else if every (λ p. not (is_null p))
            (items_of (get_in "processes" (get "resourceSnapshot" data')))
        then parsed (normalize_report data')
        else thrown
