-- ===== src/Alerts/Reconcile.antt =====
-- `reconcileAlerts`, `silenceAlert`, `unsilenceAlert` and their batches:
-- server/core/src/db/alerts.ts. A result `none` of a step is a throw, after which the transaction
-- is rolled back.
use pmeow.Prelude.{
  ℕ, String, List, [], ◌∷◌, ◌++◌, Option, none, some, string_eq, if◌then◌else◌, map_set, map_has,
  map_values,
}
use pmeow.Alerts.Types.{
  AlertStatus, active, resolved, silenced, Source, user_action, alert_key, is_silenced,
}
use pmeow.Alerts.Store.{
  AlertAnomaly, AlertRecord, AlertDb, AlertStateChange, get_alert_by_key, get_alert_by_id,
  get_active_alerts, write_transition, set_status, update_alert_value, insert_alert,
}

module _ {V D : Type 0} where
  abbrev pub key_of : AlertAnomaly V D → String
  key_of c = alert_key c.alert_type c.fingerprint

  unfoldable pub fill_map :
      List (String × AlertAnomaly V D) → List (AlertAnomaly V D) → List (String × AlertAnomaly V D)
  fill_map m [] = m
  fill_map m (c ∷ cs) = fill_map (map_set (key_of c) c m) cs

  abbrev pub candidate_map : List (AlertAnomaly V D) → List (String × AlertAnomaly V D)
  candidate_map cs = fill_map [] cs

  abbrev pub change : AlertRecord V D → AlertStatus → AlertStatus → ℕ → AlertStateChange V D
  change alert from to now = record {
    alert = record alert { status = to; updated_at = now };
    from_status = from;
    to_status = to;
  }

  abbrev pub with_values : AlertRecord V D → AlertAnomaly V D → AlertRecord V D
  with_values alert c = record alert {
    value = c.value;
    threshold = c.threshold;
    details = c.details;
  }

-- What a transaction works on: the tables, and the changes found so far.
pub record Work (V D : Type 0) : Type 0 where
  pub db : AlertDb V D
  pub changes : List (AlertStateChange V D)

module _ {V D : Type 0} (source : Source) (now : ℕ) where
  -- The body of the first loop: an active alert whose candidate is gone is resolved.
  unfoldable pub resolve_missing :
      List (String × AlertAnomaly V D) → AlertRecord V D → Work V D → Work V D
  resolve_missing candidates alert w =
      if map_has (alert_key alert.alert_type alert.fingerprint) candidates then w else record {
        db = set_status alert.id active resolved source now w.db;
        changes = w.changes ++ change alert active resolved now ∷ [];
      }

  unfoldable pub resolve_all :
      List (String × AlertAnomaly V D) → List (AlertRecord V D) → Work V D → Work V D
  resolve_all candidates [] w = w
  resolve_all candidates (alert ∷ rest) w =
      resolve_all candidates rest (resolve_missing candidates alert w)

  -- The body of the second loop.
  unfoldable pub refresh : AlertRecord V D → AlertAnomaly V D → Work V D → Work V D
  refresh existing c w = record w { db = update_alert_value existing.id c now w.db }

  unfoldable pub reactivate : AlertRecord V D → AlertAnomaly V D → Work V D → Work V D
  reactivate existing c w = record {
    db =
        set_status existing.id resolved active source now
          (update_alert_value existing.id c now w.db);
    changes = w.changes ++ change (with_values existing c) resolved active now ∷ [];
  }

  unfoldable pub by_status : AlertStatus → AlertRecord V D → AlertAnomaly V D → Work V D → Work V D
  unfolding refresh reactivate
  by_status resolved existing c w = reactivate existing c w
  by_status active existing c w = refresh existing c w
  by_status silenced existing c w = refresh existing c w

  unfoldable pub activate_new :
      Option (AlertRecord V D × AlertDb V D) → Work V D → Option (Work V D)
  activate_new none w = none
  activate_new (some (alert, added)) w = some (record {
    db = write_transition alert.id resolved active source now added;
    changes =
        w.changes ++ record { alert = alert; from_status = resolved; to_status = active } ∷ [];
  })

  unfoldable pub process_candidate : String → AlertAnomaly V D → Work V D → Option (Work V D)
  unfolding by_status activate_new
  process_candidate sid c w = elim (get_alert_by_key w.db sid c.alert_type c.fingerprint) [
    | none ↦ activate_new (insert_alert sid c now w.db) w
    | some existing ↦ some (by_status existing.status existing c w)
  ]

  unfoldable pub process_all : String → List (AlertAnomaly V D) → Work V D → Option (Work V D)
  process_all sid [] w = some w
  process_all sid (c ∷ cs) w = elim (process_candidate sid c w) [
    | none ↦ none
    | some next ↦ process_all sid cs next
  ]

  unfoldable pub reconcile_alerts :
      String → List (AlertAnomaly V D) → AlertDb V D → Option (Work V D)
  reconcile_alerts sid candidates db =
      let wanted = candidate_map candidates in
      let start : Work V D = record { db = db; changes = [] } in
      process_all sid (map_values wanted) (resolve_all wanted (get_active_alerts db sid) start)

module _ {V D : Type 0} (now : ℕ) where
  silence_found :
      ℕ → Option (AlertRecord V D) → AlertDb V D → AlertDb V D × Option (AlertStateChange V D)
  silence_found id none db = (db, none)
  silence_found id (some alert) db = if is_silenced alert.status then (db, none) else (
    set_status id alert.status silenced user_action now db,
    some (change alert alert.status silenced now),
  )

  unfoldable pub silence_alert : ℕ → AlertDb V D → AlertDb V D × Option (AlertStateChange V D)
  unfolding silence_found
  silence_alert id db = silence_found id (get_alert_by_id db id) db

  unsilence_found :
      ℕ → Option (AlertRecord V D) → AlertDb V D → AlertDb V D × Option (AlertStateChange V D)
  unsilence_found id none db = (db, none)
  unsilence_found id (some alert) db =
      if is_silenced alert.status
      then (
        set_status id silenced resolved user_action now db,
        some (change alert silenced resolved now),
      )
      else (db, none)

  unfoldable pub unsilence_alert : ℕ → AlertDb V D → AlertDb V D × Option (AlertStateChange V D)
  unfolding unsilence_found
  unsilence_alert id db = unsilence_found id (get_alert_by_id db id) db

  unfoldable pub push_change :
      List (AlertStateChange V D) → Option (AlertStateChange V D) → List (AlertStateChange V D)
  push_change changes none = changes
  push_change changes (some c) = changes ++ c ∷ []

  -- The loop of the two batches, over the operation on one alert.
  unfoldable pub batch :
      (ℕ → AlertDb V D → AlertDb V D × Option (AlertStateChange V D)) → List ℕ → Work V D → Work V D
  unfolding push_change
  batch one [] w = w
  batch one (id ∷ ids) w =
      batch one ids
        (record { db = (one id w.db).0; changes = push_change w.changes (one id w.db).1 })

  unfoldable pub batch_silence_alerts : List ℕ → AlertDb V D → Work V D
  unfolding silence_alert batch
  batch_silence_alerts ids db = batch silence_alert ids (record { db = db; changes = [] })

  unfoldable pub batch_unsilence_alerts : List ℕ → AlertDb V D → Work V D
  unfolding unsilence_alert batch
  batch_unsilence_alerts ids db = batch unsilence_alert ids (record { db = db; changes = [] })
