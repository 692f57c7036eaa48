-- ===== src/Detectors/Broadcasts.antt =====
-- What `AlertEngine` makes of a report and of a sweep: server/core/src/alert/engine.ts.
use mathlib.Core.Option
use pmeow.Prelude.{
  ℕ, String, Bool, true, false, List, [], ◌∷◌, ◌++◌, Option, none, some, ◌==◌, string_eq, eq_iff,
  eq_refl, if◌then◌else◌, ◌≡◌, ◌≢◌, refl, arith, ◌∙◌, inl, inr, Bool-cases, Option-cases, All,
  All-append_one, select, map_has, map_values, subst,
}
use pmeow.Alerts.Types.{
  AlertType, AlertStatus, active, resolved, silenced, Source, detection, offline, type_eq,
  alert_key,
}
use pmeow.Alerts.Store.{
  AlertAnomaly, AlertRecord, AlertDb, AlertStateChange, get_alert_by_key, get_active_alerts,
  insert_alert,
}
use pmeow.Alerts.Reconcile.{
  Work, resolve_missing, resolve_all, by_status, refresh, reactivate, activate_new,
  process_candidate, process_all, candidate_map, reconcile_alerts,
}
use pmeow.Alerts.Invariant.{IsValid}
use pmeow.Alerts.Activating.{status_of}
use pmeow.Alerts.Refinement.{next_status, raised, reconcile_alerts-refines}
use pmeow.Nodes.{AgentSessionRegistry}
use pmeow.Detectors.GpuIdle.{Measure}
use pmeow.Detectors.Offline.{detect_offline, offline_anomaly}
use pmeow.Detectors.Engine.{
  AlertDetails, AlertStateStore, EngineSettings, EngineResult, Snapshot, is_broadcastable, detected,
  process_report, sweep_results, sweep_offline,
}

module _ {V D : Type 0} (source : Source) (now : ℕ) where
  -- Every change found so far is to be broadcast.
  abbrev AllBroadcast : Work V D → Type 0
  AllBroadcast w = All (λ c. is_broadcastable c ≡ true) w.changes

  resolve_missing-broadcast :
      (m : List (String × AlertAnomaly V D)) (a : AlertRecord V D) (w : Work V D)
      → AllBroadcast w
      → AllBroadcast (resolve_missing source now m a w)
  unfolding resolve_missing
  resolve_missing-broadcast m a w h =
      elim (Bool-cases (map_has (alert_key a.alert_type a.fingerprint) m)) [
        | inl t ↦ rw t h
        | inr f ↦ rw f (All-append_one (λ c. is_broadcastable c ≡ true) w.changes _ h refl)
      ]

  resolve_all-broadcast :
      (m : List (String × AlertAnomaly V D)) (alerts : List (AlertRecord V D)) (w : Work V D)
      → AllBroadcast w
      → AllBroadcast (resolve_all source now m alerts w)
  unfolding resolve_all
  resolve_all-broadcast m [] w h = h
  resolve_all-broadcast m (a ∷ rest) w h =
      resolve_all-broadcast m rest _ (resolve_missing-broadcast m a w h)

  by_status-broadcast :
      (s : AlertStatus) (a : AlertRecord V D) (c : AlertAnomaly V D) (w : Work V D)
      → AllBroadcast w
      → AllBroadcast (by_status source now s a c w)
  unfolding by_status refresh reactivate
  by_status-broadcast active a c w h = h
  by_status-broadcast silenced a c w h = h
  by_status-broadcast resolved a c w h =
      All-append_one (λ x. is_broadcastable x ≡ true) w.changes _ h refl

  activate_new-broadcast :
      (o : Option (AlertRecord V D × AlertDb V D)) (w w' : Work V D)
      → AllBroadcast w
      → activate_new source now o w ≡ some w'
      → AllBroadcast w'
  unfolding activate_new
  activate_new-broadcast none w w' h e = absurd (cc)
  activate_new-broadcast (some (a, db)) w w' h e =
      subst AllBroadcast (Option.some-injective _ _ e)
        (All-append_one (λ x. is_broadcastable x ≡ true) w.changes _ h refl)

  process_candidate-broadcast :
      (sid : String) (c : AlertAnomaly V D) (w w' : Work V D)
      → AllBroadcast w
      → process_candidate source now sid c w ≡ some w'
      → AllBroadcast w'
  unfolding process_candidate
  process_candidate-broadcast sid c w w' h e =
      elim (Option-cases (get_alert_by_key w.db sid c.alert_type c.fingerprint)) [
        | inl k ↦
            activate_new-broadcast (insert_alert sid c now w.db) w w' h
              (rw (k, process_candidate) at e)
        | inr (a, k) ↦
            let made : some (by_status source now a.status a c w) ≡ some w' =
              rw (k, process_candidate) at e in
            subst AllBroadcast (Option.some-injective _ _ made)
              (by_status-broadcast a.status a c w h)
      ]

  process_all-broadcast :
      (sid : String) (cs : List (AlertAnomaly V D)) (w w' : Work V D)
      → AllBroadcast w
      → process_all source now sid cs w ≡ some w'
      → AllBroadcast w'
  unfolding process_all
  process_all-broadcast sid [] w w' h e = subst AllBroadcast (Option.some-injective _ _ e) h
  process_all-broadcast sid (c ∷ cs) w w' h e =
      elim (Option-cases (process_candidate source now sid c w)) [
        | inl k ↦ absurd (cc (rw (k, process_all) at e))
        | inr (x, k) ↦
            process_all-broadcast sid cs x w' (process_candidate-broadcast sid c w x h k)
              (rw (k, process_all) at e)
      ]

  reconcile_alerts-broadcast :
      (sid : String) (cs : List (AlertAnomaly V D)) (db : AlertDb V D) (w : Work V D)
      → reconcile_alerts source now sid cs db ≡ some w
      → AllBroadcast w
  unfolding reconcile_alerts
  reconcile_alerts-broadcast sid cs db w e =
      process_all-broadcast sid (map_values (candidate_map cs)) _ w
        (resolve_all-broadcast (candidate_map cs) (get_active_alerts db sid)
          (record { db = db; changes = [] }) tt)
        e

select_all :
    {V D : Type 0} (cs : List (AlertStateChange V D))
    → All (λ c. is_broadcastable c ≡ true) cs
    → select is_broadcastable cs ≡ cs
select_all [] h = refl
select_all (c ∷ cs) (h, hs) = rw h (cc (select_all cs hs))

module _ {V : Type 0} (m : Measure V) (at_least : V → V → Bool) (seconds of_seconds : ℕ → V) where
  -- For a known server and a valid database, a report never fails: the alerts of the server move by
  -- whether the detectors found them, those of other servers stay, the database stays valid, and
  -- every change is broadcast.
  pub process_report-refines :
      (now : ℕ) (sid : String) (settings : EngineSettings V) (snapshot : Snapshot V)
      (store : AlertStateStore V) (db : AlertDb V (AlertDetails V))
      → sid ≢ ""
      → IsValid db
      → (r : EngineResult V) × (process_report m at_least seconds of_seconds now sid settings
            snapshot store db
          ≡ some r)
        × IsValid r.db
        × ((sid' : String) (t : AlertType) (fp : String)
            → status_of r.db sid' t fp ≡ (
                if sid == sid'
                then next_status
                    (raised
                      (detected m at_least seconds of_seconds now sid settings snapshot store).1
                      t
                      fp)
                    (status_of db sid' t fp)
                else status_of db sid' t fp))
        × (r.broadcastable ≡ r.all_changes)
  unfolding process_report
  process_report-refines now sid settings snapshot store db known v =
      let found = detected m at_least seconds of_seconds now sid settings snapshot store in
      let (w, e, valid, moves) = reconcile_alerts-refines detection now sid found.1 db known v in
      (
        record {
          store = found.0;
          db = w.db;
          all_changes = w.changes;
          broadcastable = select is_broadcastable w.changes;
        },
        rw (e, process_report) refl,
        valid,
        moves,
        select_all w.changes (reconcile_alerts-broadcast detection now sid found.1 db w e),
      )

  -- Where a sweep finds one server offline, it resolves that server's active alerts of every other
  -- type, although no report has come that says that they are over.
  pub sweep_offline-resolves :
      (now elapsed : ℕ) (sid : String) (settings : EngineSettings V) (reg : AgentSessionRegistry)
      (db : AlertDb V (AlertDetails V)) (t : AlertType) (fp : String)
      → sid ≢ ""
      → IsValid db
      → detect_offline {D = AlertDetails V} seconds of_seconds settings.alert_offline_seconds now
          reg
        ≡ (sid, offline_anomaly seconds of_seconds settings.alert_offline_seconds elapsed ∷ []) ∷ []
      → (t == offline) ≡ false
      → status_of db sid t fp ≡ some active
      → (w : Work V (AlertDetails V)) × (sweep_offline m at_least seconds of_seconds now settings
            reg db
          ≡ some w)
        × (status_of w.db sid t fp ≡ some resolved)
  unfolding sweep_offline sweep_results
  sweep_offline-resolves now elapsed sid settings reg db t fp known v found other was =
      let a : AlertAnomaly V (AlertDetails V) =
        offline_anomaly seconds of_seconds settings.alert_offline_seconds elapsed in
      let (w, e, valid, moves) = reconcile_alerts-refines detection now sid (a ∷ []) db known v in
      (
        record { db = w.db; changes = [] ++ w.changes },
        rw (found, sweep_offline) (rw (e, sweep_results) refl),
        moves sid t fp
            ∙ ground (arith, eq_refl sid, was, other, eq_iff t offline, eq_iff offline t),
      )
