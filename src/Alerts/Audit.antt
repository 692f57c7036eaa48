-- ===== src/Alerts/Audit.antt =====
-- What `reconcileAlerts` (server/core/src/db/alerts.ts) reports to its caller and what it writes to
-- `alert_transitions` are the same list.
use mathlib.Core.List.{append-nil, append_assoc, map-append}
use pmeow.Prelude.{
  ℕ, String, string_eq, List, [], ◌∷◌, ◌++◌, map, Option, none, some, ◌≡◌, refl, sym, ◌⊎◌, inl, inr,
  Bool-cases, Option-cases, All, All-append_one, map_has, map_values, find, subst,
}
use pmeow.Alerts.Types.{AlertStatus, active, resolved, silenced, Source, alert_key}
use pmeow.Alerts.Store.{
  AlertAnomaly, AlertRecord, AlertDb, AlertStateChange, AlertTransition, transition, set_status,
  write_transition, update_alert_value, add_alert, new_alert, get_alert_by_key, get_active_alerts,
  has_key,
}
use pmeow.Alerts.Reconcile.{
  Work, change, with_values, candidate_map, resolve_missing, resolve_all, by_status,
  process_candidate, process_all, reconcile_alerts,
}
use pmeow.Alerts.Activating.{insert_alert-absent}

module _ {V D : Type 0} where
  -- A change that detection may make: a new or returning alert, or one that is over.
  abbrev pub IsDetected : AlertStateChange V D → Type 0
  IsDetected c =
      (((c.from_status ≡ resolved) × (c.to_status ≡ active))
        ⊎ ((c.from_status ≡ active) × (c.to_status ≡ resolved)))
      × (c.alert.status ≡ c.to_status)

  module _ (source : Source) (now : ℕ) where
    -- The row of the log for a change.
    abbrev pub entry : AlertStateChange V D → AlertTransition
    entry c = transition c.alert.id c.from_status c.to_status source now

    pub record IsAudited (before : List AlertTransition) (w : Work V D) : Type 0 where
      pub logged : w.db.transitions ≡ before ++ map entry w.changes
      pub detected : All IsDetected w.changes

    log_more :
        (before : List AlertTransition) (cs : List (AlertStateChange V D))
        (c : AlertStateChange V D) (ts : List AlertTransition)
        → ts ≡ before ++ map entry cs
        → ts ++ entry c ∷ [] ≡ before ++ map entry (cs ++ c ∷ [])
    log_more before cs c ts e = simp (e, map-append, append_assoc)

    module _ (before : List AlertTransition) where
      resolve_missing-IsAudited :
          (wanted : List (String × AlertAnomaly V D)) (a : AlertRecord V D) (w : Work V D)
          → IsAudited before w
          → IsAudited before (resolve_missing source now wanted a w)
      unfolding resolve_missing set_status write_transition
      resolve_missing-IsAudited wanted a w h =
          elim (Bool-cases (map_has (alert_key a.alert_type a.fingerprint) wanted)) [
            | inl has ↦ rw has h
            | inr gone ↦ rw gone (record {
              logged =
                  log_more before w.changes (change a active resolved now) w.db.transitions
                    h.logged;
              detected = All-append_one _ w.changes _ h.detected (inr (refl, refl), refl);
            })
          ]

      resolve_all-IsAudited :
          (wanted : List (String × AlertAnomaly V D)) (listed : List (AlertRecord V D))
          (w : Work V D)
          → IsAudited before w
          → IsAudited before (resolve_all source now wanted listed w)
      unfolding resolve_all
      resolve_all-IsAudited wanted [] w h = h
      resolve_all-IsAudited wanted (a ∷ listed) w h =
          resolve_all-IsAudited wanted listed (resolve_missing source now wanted a w)
            (resolve_missing-IsAudited wanted a w h)

      by_status-IsAudited :
          (st : AlertStatus) (e : AlertRecord V D) (c : AlertAnomaly V D) (w : Work V D)
          → IsAudited before w
          → IsAudited before (by_status source now st e c w)
      unfolding by_status set_status write_transition update_alert_value
      by_status-IsAudited resolved e c w h = record {
        logged =
            log_more before w.changes (change (with_values e c) resolved active now)
              w.db.transitions h.logged;
        detected = All-append_one _ w.changes _ h.detected (inl (refl, refl), refl);
      }
      by_status-IsAudited active e c w h = record { logged = h.logged; detected = h.detected }
      by_status-IsAudited silenced e c w h = record { logged = h.logged; detected = h.detected }

      -- What holds of the work that a step leaves, if it does not throw.
      abbrev AuditedSome : Option (Work V D) → Type 0
      AuditedSome none = Unit {0}
      AuditedSome (some w) = IsAudited before w

      process_candidate-IsAudited :
          (sid : String) (c : AlertAnomaly V D) (w : Work V D)
          → IsAudited before w
          → AuditedSome (process_candidate source now sid c w)
      unfolding process_candidate get_alert_by_key
      process_candidate-IsAudited sid c w h =
          elim (Option-cases (find (has_key sid c.alert_type c.fingerprint) w.db.alerts)) [
            | inl absent ↦
                rw (absent, process_candidate)
                  (rw (insert_alert-absent source now sid c w.db absent) (
                    unfold add_alert write_transition in
                    (record {
                      logged =
                          log_more before w.changes
                            (record {
                              alert = new_alert w.db.next_id sid c now;
                              from_status = resolved;
                              to_status = active;
                            })
                            w.db.transitions h.logged;
                      detected = All-append_one _ w.changes _ h.detected (inl (refl, refl), refl);
                    })))
            | inr (e, found) ↦ rw (found, process_candidate) (by_status-IsAudited e.status e c w h)
          ]

      process_all-IsAudited :
          (sid : String) (cs : List (AlertAnomaly V D)) (w : Work V D)
          → IsAudited before w
          → AuditedSome (process_all source now sid cs w)
      unfolding process_all
      process_all-IsAudited sid [] w h = h
      process_all-IsAudited sid (c ∷ cs) w h =
          elim (Option-cases (process_candidate source now sid c w)) [
            | inl e ↦ rw (e, process_all) tt
            | inr (w', e) ↦
                rw (e, process_all)
                  (process_all-IsAudited sid cs w'
                    (subst AuditedSome e (process_candidate-IsAudited sid c w h)))
          ]

    -- The changes that a round reports are, in order, the rows that it adds to the log; each makes an
    -- alert active that was not, or resolves an active one, and carries the alert in its new status.
    pub reconcile_alerts-IsAudited :
        (sid : String) (cs : List (AlertAnomaly V D)) (db : AlertDb V D) (w : Work V D)
        → reconcile_alerts source now sid cs db ≡ some w
        → IsAudited db.transitions w
    unfolding reconcile_alerts
    reconcile_alerts-IsAudited sid cs db w done =
        let start : Work V D = record { db = db; changes = [] } in
        subst (AuditedSome db.transitions) done (
          process_all-IsAudited db.transitions sid (map_values (candidate_map cs)) _ (
            resolve_all-IsAudited db.transitions (candidate_map cs) (get_active_alerts db sid) start
              (record { logged = sym (append-nil _); detected = tt })))
