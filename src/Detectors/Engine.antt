-- ===== src/Detectors/Engine.antt =====
-- `AlertEngine`: server/core/src/alert/engine.ts. The detectors' parts of the state store are two
-- fields, since their keys begin differently.
use pmeow.Prelude.{
  ℕ, String, Bool, ◌&&◌, ◌||◌, List, [], ◌∷◌, ◌++◌, map, Option, none, some, select,
}
use mathlib.Core.Option
use pmeow.Alerts.Types.{detection, is_active, is_resolved}
use pmeow.Alerts.Store.{AlertAnomaly, AlertDb, AlertStateChange}
use pmeow.Alerts.Reconcile.{Work, reconcile_alerts}
use pmeow.Nodes.{AgentSessionRegistry}
use pmeow.Detectors.Thresholds.{Store, ThresholdSettings, Readings, Details, detect_thresholds}
use pmeow.Detectors.GpuIdle.{
  IdleCard, IdleStore, IdleSettings, IdleDetails, Measure, detect_gpu_idle,
}
use pmeow.Detectors.Offline.{detect_offline}

-- The details of the two detectors.
pub data AlertDetails (V : Type 0) : Type 0 where
  of_threshold : Details → AlertDetails V
  of_idle : IdleDetails V → AlertDetails V

pub record AlertStateStore (V : Type 0) : Type 0 where
  pub thresholds : Store V
  pub idle : IdleStore V

pub record EngineSettings (V : Type 0) : Type 0 where
  pub threshold_settings : ThresholdSettings V
  pub idle_settings : IdleSettings V
  pub alert_offline_seconds : ℕ

pub record Snapshot (V : Type 0) : Type 0 where
  pub readings : Readings V
  pub cards : List (IdleCard V)

pub record EngineResult (V : Type 0) : Type 0 where
  pub store : AlertStateStore V
  pub db : AlertDb V (AlertDetails V)
  pub all_changes : List (AlertStateChange V (AlertDetails V))
  pub broadcastable : List (AlertStateChange V (AlertDetails V))

abbrev pub with_details : {V D E : Type 0} → (D → E) → AlertAnomaly V D → AlertAnomaly V E
with_details f a = record {
  alert_type = a.alert_type;
  value = a.value;
  threshold = a.threshold;
  fingerprint = a.fingerprint;
  details = Option.map f a.details;
}

abbrev pub is_broadcastable : {V D : Type 0} → AlertStateChange V D → Bool
is_broadcastable c =
    (is_resolved c.from_status && is_active c.to_status)
    || (is_active c.from_status && is_resolved c.to_status)

-- `m` measures percentages; `at_least` compares readings.
module _ {V : Type 0} (m : Measure V) (at_least : V → V → Bool) (seconds of_seconds : ℕ → V) where
  unfoldable pub detected :
      ℕ
      → String
      → EngineSettings V
      → Snapshot V
      → AlertStateStore V
      → AlertStateStore V × List (AlertAnomaly V (AlertDetails V))
  unfolding detect_thresholds detect_gpu_idle
  detected now sid settings snapshot store =
      let by_threshold =
        detect_thresholds at_least m.string_of sid settings.threshold_settings now snapshot.readings
          store.thresholds in
      let by_idle = detect_gpu_idle m sid settings.idle_settings now snapshot.cards store.idle in
      (
        record { thresholds = by_threshold.0; idle = by_idle.0 },
        map (with_details of_threshold) by_threshold.1 ++ map (with_details of_idle) by_idle.1,
      )

  -- None where the transaction on the alerts throws.
  unfoldable pub process_report :
      ℕ
      → String
      → EngineSettings V
      → Snapshot V
      → AlertStateStore V
      → AlertDb V (AlertDetails V)
      → Option (EngineResult V)
  unfolding detected reconcile_alerts
  process_report now sid settings snapshot store db =
      let found = detected now sid settings snapshot store in
      elim (reconcile_alerts detection now sid found.1 db) [
        | none ↦ none
        | some w ↦ some (record {
          store = found.0;
          db = w.db;
          all_changes = w.changes;
          broadcastable = select is_broadcastable w.changes;
        })
      ]

  -- The changes to broadcast are those of the result that pass `is_broadcastable`.
  unfoldable pub sweep_results :
      ℕ
      → List (String × List (AlertAnomaly V (AlertDetails V)))
      → Work V (AlertDetails V)
      → Option (Work V (AlertDetails V))
  unfolding reconcile_alerts
  sweep_results now [] w = some w
  sweep_results now ((sid, anomalies) ∷ rest) w =
      elim (reconcile_alerts detection now sid anomalies w.db) [
        | none ↦ none
        | some done ↦
            sweep_results now rest (record { db = done.db; changes = w.changes ++ done.changes })
      ]

  -- The store is not touched.
  unfoldable pub sweep_offline :
      ℕ
      → EngineSettings V
      → AgentSessionRegistry
      → AlertDb V (AlertDetails V)
      → Option (Work V (AlertDetails V))
  unfolding detect_offline sweep_results
  sweep_offline now settings reg db =
      sweep_results now (detect_offline seconds of_seconds settings.alert_offline_seconds now reg)
        (record { db = db; changes = [] })
