-- ===== src/Ingest/Pipeline.antt =====
-- `IngestPipeline`: server/core/src/ingest/pipeline.ts. The parts of a report that the components read
-- are fields of it, the tables and the components' own state are one record, and a call of a callback is
-- a value. The settings are those that `getSettings` reads.
use pmeow.Prelude.{
  ℕ, ◌/◌, String, Bool, List, ◌∷◌, ◌++◌, map, Option, none, some, string_eq, map_get, map_set,
}
use mathlib.Core.Option
use pmeow.Tasks.Differ.{TaskDiffResult}
use pmeow.Tasks.Engine.{TaskQueue, TaskDb, process_report as process_tasks}
use pmeow.Alerts.Store.{AlertDb, AlertStateChange}
use pmeow.Detectors.GpuIdle.{Measure}
use pmeow.Detectors.Engine.{
  AlertDetails, AlertStateStore, EngineSettings, EngineResult, Snapshot,
  process_report as process_alerts,
}
use pmeow.Security.Types.{SecurityDb, SecurityEventRecord, Platform, ProcessInfo, GpuProcesses}
use pmeow.Security.Pipeline.{process_security_check}
use pmeow.Snapshots.Store.{SnapshotDb}
use pmeow.Snapshots.Scheduler.{SnapshotScheduler, SnapshotSettings, StoredReport, store_report}

pub record UnifiedReport (V R G : Type 0) : Type 0 where
  -- The whole seconds of its time.
  pub timestamp : ℕ
  pub task_queue : TaskQueue
  pub measured : Snapshot V
  pub processes : List ProcessInfo
  pub gpu_processes : List GpuProcesses
  pub stored : StoredReport R G

pub record IngestSettings (V : Type 0) : Type 0 where
  pub engine : EngineSettings V
  pub security_mining_keywords : List String
  pub snapshots : SnapshotSettings

pub record IngestPipeline (V R G : Type 0) : Type 0 where
  pub latest_reports : List (String × UnifiedReport V R G)
  pub scheduler : SnapshotScheduler
  pub alert_store : AlertStateStore V
  pub tasks : TaskDb
  pub alerts : AlertDb V (AlertDetails V)
  pub security : SecurityDb
  pub snapshots : SnapshotDb R G

pub data Callback (V R G : Type 0) : Type 0 where
  on_metrics_update : String → UnifiedReport V R G → Callback V R G
  on_task_event : TaskDiffResult → Callback V R G
  on_alert_state_change : AlertStateChange V (AlertDetails V) → Callback V R G
  on_security_event : SecurityEventRecord → Callback V R G

-- How `processReport` ends, with the callbacks that it has called.
pub data Outcome (V R G : Type 0) : Type 0 where
  done thrown : IngestPipeline V R G → List (Callback V R G) → Outcome V R G

abbrev pub queue_of : {V R G : Type 0} → UnifiedReport V R G → TaskQueue
queue_of r = r.task_queue

unfoldable pub get_latest_report :
    {V R G : Type 0} → String → IngestPipeline V R G → Option (UnifiedReport V R G)
get_latest_report sid s = map_get sid s.latest_reports

module _ {V R G : Type 0} (js : Platform) (m : Measure V) (at_least : V → V → Bool)
    (seconds of_seconds : ℕ → V) where
  -- Steps 1 to 3: the cache, the metrics and the tasks.
  unfoldable pub take_report :
      ℕ
      → String
      → UnifiedReport V R G
      → IngestPipeline V R G
      → IngestPipeline V R G × List (Callback V R G)
  unfolding process_tasks
  take_report now sid report s =
      let prev = Option.map queue_of (map_get sid s.latest_reports) in
      let tasks = process_tasks sid (now / 1000) report.timestamp prev report.task_queue s.tasks in
      (
        record s { latest_reports = map_set sid report s.latest_reports; tasks = tasks.0 },
        on_metrics_update sid report ∷ map on_task_event tasks.1,
      )

  -- Steps 5 and 6: the security check and the snapshots.
  unfoldable pub check_and_store :
      ℕ
      → String
      → IngestSettings V
      → UnifiedReport V R G
      → IngestPipeline V R G
      → IngestPipeline V R G × List (Callback V R G)
  unfolding process_security_check store_report
  check_and_store now sid settings report s =
      let checked =
        process_security_check js now sid settings.security_mining_keywords report.processes
          report.gpu_processes s.security in
      let stored =
        store_report now sid settings.snapshots report.stored (s.scheduler, s.snapshots) in
      (
        record s { security = checked.0; scheduler = stored.0; snapshots = stored.1 },
        map on_security_event checked.1,
      )

  -- Step 4, the alerts, and what follows unless it throws.
  abbrev pub go_on :
      ℕ
      → String
      → IngestSettings V
      → UnifiedReport V R G
      → IngestPipeline V R G × List (Callback V R G)
      → Option (EngineResult V)
      → Outcome V R G
  go_on now sid settings report taken none = thrown taken.0 taken.1
  go_on now sid settings report taken (some r) =
      let last =
        check_and_store now sid settings report
          (record (taken.0) { alert_store = r.store; alerts = r.db }) in
      done last.0 (taken.1 ++ (map on_alert_state_change r.broadcastable ++ last.1))

  unfoldable pub process_report :
      ℕ → String → IngestSettings V → UnifiedReport V R G → IngestPipeline V R G → Outcome V R G
  unfolding take_report check_and_store process_alerts
  process_report now sid settings report s =
      let taken = take_report now sid report s in
      go_on now sid settings report taken (
        process_alerts m at_least seconds of_seconds now sid settings.engine report.measured
          taken.0.alert_store taken.0.alerts)
