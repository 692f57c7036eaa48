-- ===== src/Alerts/Examples.antt =====
-- Runs of the alert tables, and the theorems about them at concrete tables.
use pmeow.Prelude.{
  ℕ, String, string_eq, nat_eq, List, [], ◌∷◌, Option, none, some, ◌≡◌, ◌≢◌, refl, arith,
  if◌then◌else◌, ◌==◌, eq_iff,
}
use pmeow.Alerts.Types.{
  AlertType, cpu, memory, disk, AlertStatus, active, resolved, silenced, detection, type_eq,
}
use pmeow.Alerts.Store.{
  AlertAnomaly, AlertRecord, AlertDb, transition, get_alert_by_id, get_active_alerts, set_status,
  update_alert_value, insert_alert,
}
use pmeow.Alerts.Reconcile.{
  Work, resolve_all, resolve_missing, process_all, process_candidate, fill_map, reconcile_alerts,
  silence_alert, batch_silence_alerts, batch_unsilence_alerts,
}
use pmeow.Alerts.Invariant.{IsValid}
use pmeow.Alerts.Activating.{status_of}
use pmeow.Alerts.Refinement.{next_status, raised, reconcile_alerts-refines}
use pmeow.Alerts.Audit.{IsAudited, reconcile_alerts-IsAudited}
use pmeow.Alerts.Silencing.{status_at, batch_silence_alerts-lem, batch_unsilence_alerts-lem}
use pmeow.Alerts.History.{here, next, silences, empty, Reach-IsValid}

abbrev anomaly : AlertType → ℕ → String → AlertAnomaly ℕ String
anomaly t v fp = record {
  alert_type = t;
  value = v;
  threshold = 80;
  fingerprint = fp;
  details = none;
}

abbrev row : ℕ → String → AlertType → String → AlertStatus → AlertRecord ℕ String
row id sid t fp st = record {
  id = id;
  server_id = sid;
  alert_type = t;
  value = 90;
  threshold = 80;
  fingerprint = fp;
  details = none;
  status = st;
  created_at = 5;
  updated_at = 5;
}

-- Three alerts of server "a": CPU active, disk "/" silenced, memory resolved.
abbrev three : AlertDb ℕ String
three = record {
  alerts =
      row 1 "a" cpu "" active ∷ row 2 "a" disk "/" silenced ∷ row 3 "a" memory "" resolved ∷ [];
  next_id = 4;
  transitions =
      transition 1 resolved active detection 5
      ∷ transition 2 resolved active detection 5
      ∷ transition 3 resolved active detection 5
      ∷ transition 2 active silenced detection 6
      ∷ transition 3 active resolved detection 6
      ∷ [];
}

three-IsValid : IsValid three
three-IsValid = record {
  fresh = omega arith;
  ids = omega arith;
  keys = ((λ e. cc, (λ e. cc, tt)), ((λ e. cc, tt), (tt, tt)));
  logged = (refl, (refl, (refl, tt)));
  unused = λ id h. ground arith;
}

-- The CPU alert is over, the memory alert is back, the silenced disk alert stays, a new one appears.
abbrev seen : List (AlertAnomaly ℕ String)
seen = anomaly memory 95 "" ∷ anomaly disk 99 "/" ∷ anomaly disk 97 "/data" ∷ []

named : ◌≢◌ {A = String} "a" ""
named = ground (arith, eq_iff {A = String} "a" "")

abbrev statuses : Option (Work ℕ String) → List (Option AlertStatus)
statuses none = []
statuses (some w) =
    status_of w.db "a" cpu ""
    ∷ status_of w.db "a" memory ""
    ∷ status_of w.db "a" disk "/"
    ∷ status_of w.db "a" disk "/data"
    ∷ []

reconcile_alerts_run :
    statuses (reconcile_alerts detection 10 "a" seen three)
    ≡ some resolved ∷ some active ∷ some silenced ∷ some active ∷ []
unfolding reconcile_alerts resolve_all resolve_missing process_all process_candidate fill_map
    get_active_alerts set_status update_alert_value insert_alert
reconcile_alerts_run = refl

reconcile_alerts-refines_example :
    (w : Work ℕ String) × (reconcile_alerts detection 10 "a" seen three ≡ some w)
    × IsValid w.db
    × ((sid' : String) (t : AlertType) (fp : String)
        → status_of w.db sid' t fp ≡ (
            if "a" == sid'
            then next_status (raised seen t fp) (status_of three sid' t fp)
            else status_of three sid' t fp))
reconcile_alerts-refines_example =
    reconcile_alerts-refines detection 10 "a" seen three named three-IsValid

abbrev refined : Work ℕ String
refined = (reconcile_alerts-refines detection 10 "a" seen three named three-IsValid).0

reconcile_alerts-IsAudited_example : IsAudited detection 10 three.transitions refined
reconcile_alerts-IsAudited_example =
    reconcile_alerts-IsAudited detection 10 "a" seen three refined
      (reconcile_alerts-refines detection 10 "a" seen three named three-IsValid).1

batch_silence_alerts-lem_example :
    status_at (batch_silence_alerts 12 (1 ∷ 7 ∷ []) three).db 1 ≡ some silenced
unfolding get_alert_by_id
batch_silence_alerts-lem_example = batch_silence_alerts-lem 12 (1 ∷ 7 ∷ []) three 1

batch_unsilence_alerts-lem_example :
    status_at (batch_unsilence_alerts 12 (1 ∷ 2 ∷ []) three).db 2 ≡ some resolved
unfolding get_alert_by_id
batch_unsilence_alerts-lem_example = batch_unsilence_alerts-lem 12 (1 ∷ 2 ∷ []) three 2

Reach-IsValid_example : IsValid (silence_alert 3 1 (empty {V = ℕ} {D = String})).0
Reach-IsValid_example = Reach-IsValid _ (next here (silences 3 1))
