-- ===== src/Detectors/Offline.antt =====
-- Connected agents that have stopped reporting: `detectOffline` of server/core/src/alert/detectors.ts.

use pmeow.Prelude.{ℕ, ◌+◌, ◌*◌, ◌-◌, String, List, [], ◌∷◌, Option, none, some, if◌then◌else◌, ltb}
use pmeow.Alerts.Types.{offline}
use pmeow.Alerts.Store.{AlertAnomaly}
use pmeow.Nodes.{AgentSession, AgentSessionRegistry, get_all_sessions, get_last_report_at}

abbrev pub or_zero : Option ℕ → ℕ
or_zero none = 0
or_zero (some t) = t

-- The value is the time since the last report in seconds, `seconds elapsed`, where `seconds` divides by
-- 1000 in the type of measured numbers, and `of_seconds` is the setting in that type.
module _ {V D : Type 0} (seconds of_seconds : ℕ → V) (alert_offline_seconds : ℕ) where
  abbrev pub offline_anomaly : ℕ → AlertAnomaly V D
  offline_anomaly elapsed_ms = record {
    alert_type = offline;
    value = seconds elapsed_ms;
    threshold = of_seconds alert_offline_seconds;
    fingerprint = "";
    details = none;
  }

  unfoldable pub offline_among :
      ℕ → AgentSessionRegistry → List AgentSession → List (String × List (AlertAnomaly V D))
  unfolding get_last_report_at
  offline_among now reg [] = []
  offline_among now reg (s ∷ rest) =
      let last_report = or_zero (get_last_report_at s.agent_id reg) in
      let later = offline_among now reg rest in
      if ltb (last_report + alert_offline_seconds * 1000) now
      then (s.server_id, offline_anomaly (now - last_report) ∷ []) ∷ later
      else later

  unfoldable pub detect_offline : ℕ → AgentSessionRegistry → List (String × List (AlertAnomaly V D))
  detect_offline now reg = offline_among now reg (get_all_sessions reg)
