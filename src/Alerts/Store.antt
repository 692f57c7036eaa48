-- ===== src/Alerts/Store.antt =====
-- The tables `alerts` and `alert_transitions`, and the statements that read and write them:
-- server/core/src/db/alerts.ts, with the constraints of server/core/src/db/database.ts.
-- The type `V` of measured numbers and the type `D` of details stay open.
use mathlib.Core.Option
use pmeow.Prelude.{
  ℕ, suc, String, Bool, true, not, ◌&&◌, List, [], ◌∷◌, ◌++◌, Option, none, some, ◌==◌, nat_eq,
  string_eq, if◌then◌else◌, leb, select, find, any, update_where,
}
use pmeow.Alerts.Types.{AlertType, AlertStatus, active, Source, type_eq, same_status}

pub record AlertAnomaly (V D : Type 0) : Type 0 where
  pub alert_type : AlertType
  pub value : V
  pub threshold : V
  pub fingerprint : String
  pub details : Option D

pub record AlertRecord (V D : Type 0) : Type 0 where
  pub id : ℕ
  pub server_id : String
  pub alert_type : AlertType
  pub value : V
  pub threshold : V
  pub fingerprint : String
  pub details : Option D
  pub status : AlertStatus
  pub created_at : ℕ
  pub updated_at : ℕ

pub record AlertTransition : Type 0 where
  pub alert_id : ℕ
  pub from_status : AlertStatus
  pub to_status : AlertStatus
  pub source : Source
  pub created_at : ℕ

-- `next_id` is the counter of the AUTOINCREMENT key.
pub record AlertDb (V D : Type 0) : Type 0 where
  pub alerts : List (AlertRecord V D)
  pub next_id : ℕ
  pub transitions : List AlertTransition

pub record AlertStateChange (V D : Type 0) : Type 0 where
  pub alert : AlertRecord V D
  pub from_status : AlertStatus
  pub to_status : AlertStatus

abbrev pub transition : ℕ → AlertStatus → AlertStatus → Source → ℕ → AlertTransition
transition id from to source now = record {
  alert_id = id;
  from_status = from;
  to_status = to;
  source = source;
  created_at = now;
}

module _ {V D : Type 0} where
  -- The WHERE clause of `getAlertByKey`; it is also the UNIQUE constraint of the table.
  abbrev pub has_key : String → AlertType → String → AlertRecord V D → Bool
  has_key sid t fp r = r.server_id == sid && (r.alert_type == t && r.fingerprint == fp)

  unfoldable pub get_alert_by_key :
      AlertDb V D → String → AlertType → String → Option (AlertRecord V D)
  get_alert_by_key db sid t fp = find (has_key sid t fp) db.alerts

  unfoldable pub get_alert_by_id : AlertDb V D → ℕ → Option (AlertRecord V D)
  get_alert_by_id db id = find (λ r. r.id == id) db.alerts

  -- ORDER BY updated_at DESC; rows of one time stay in the order of the table.
  unfoldable pub insert_desc : AlertRecord V D → List (AlertRecord V D) → List (AlertRecord V D)
  insert_desc r [] = r ∷ []
  insert_desc r (x ∷ xs) =
      if leb x.updated_at r.updated_at then r ∷ x ∷ xs else x ∷ insert_desc r xs

  unfoldable pub order_desc : List (AlertRecord V D) → List (AlertRecord V D)
  unfolding insert_desc
  order_desc [] = []
  order_desc (r ∷ rs) = insert_desc r (order_desc rs)

  -- A clause is added for a server id that is given and not empty.
  abbrev pub in_server : Option String → AlertRecord V D → Bool
  in_server none r = true
  in_server (some sid) r = if sid == "" then true else r.server_id == sid

  abbrev pub in_status : Option AlertStatus → AlertRecord V D → Bool
  in_status none r = true
  in_status (some s) r = same_status s r.status

  unfoldable pub get_alerts :
      AlertDb V D → Option String → Option AlertStatus → List (AlertRecord V D)
  unfolding order_desc
  get_alerts db sid st = order_desc (select (λ r. in_server sid r && in_status st r) db.alerts)

  unfoldable pub get_active_alerts : AlertDb V D → String → List (AlertRecord V D)
  unfolding get_alerts
  get_active_alerts db sid = get_alerts db (some sid) (some active)

  unfoldable pub write_transition :
      ℕ → AlertStatus → AlertStatus → Source → ℕ → AlertDb V D → AlertDb V D
  write_transition id from to source now db = record db {
    transitions =
        db.transitions
        ++ record {
          alert_id = id;
          from_status = from;
          to_status = to;
          source = source;
          created_at = now;
        }
          ∷ [];
  }

  unfoldable pub set_status : ℕ → AlertStatus → AlertStatus → Source → ℕ → AlertDb V D → AlertDb V D
  unfolding write_transition
  set_status id from to source now db = write_transition id from to source now (record db {
    alerts =
        update_where (λ r. r.id == id) (λ r. record r { status = to; updated_at = now }) db.alerts;
  })

  abbrev pub revalue : AlertAnomaly V D → ℕ → AlertRecord V D → AlertRecord V D
  revalue c now r = record r {
    value = c.value;
    threshold = c.threshold;
    details = c.details;
    updated_at = now;
  }

  unfoldable pub update_alert_value : ℕ → AlertAnomaly V D → ℕ → AlertDb V D → AlertDb V D
  update_alert_value id c now db = record db {
    alerts = update_where (λ r. r.id == id) (revalue c now) db.alerts;
  }

  abbrev pub new_alert : ℕ → String → AlertAnomaly V D → ℕ → AlertRecord V D
  new_alert id sid c now = record {
    id = id;
    server_id = sid;
    alert_type = c.alert_type;
    value = c.value;
    threshold = c.threshold;
    fingerprint = c.fingerprint;
    details = c.details;
    status = active;
    created_at = now;
    updated_at = now;
  }

  unfoldable pub add_alert : AlertRecord V D → AlertDb V D → AlertDb V D
  add_alert r db = record db { alerts = db.alerts ++ r ∷ []; next_id = suc db.next_id }

  -- `none`: the INSERT violates UNIQUE, or the new row cannot be read back; both throw.
  unfoldable pub insert_alert :
      String → AlertAnomaly V D → ℕ → AlertDb V D → Option (AlertRecord V D × AlertDb V D)
  unfolding get_alert_by_key add_alert
  insert_alert sid c now db =
      if any (has_key sid c.alert_type c.fingerprint) db.alerts
      then none
      else let added = add_alert (new_alert db.next_id sid c now) db in
        Option.map (λ alert. (alert, added)) (get_alert_by_key added sid c.alert_type c.fingerprint)

  -- ON DELETE CASCADE removes the transitions of the alerts that go.
  unfoldable pub delete_alerts_by_server_id : String → AlertDb V D → AlertDb V D
  delete_alerts_by_server_id sid db = record db {
    alerts = select (λ r. not (r.server_id == sid)) db.alerts;
    transitions =
        select (λ t. not (any (λ r. r.server_id == sid && r.id == t.alert_id) db.alerts))
          db.transitions;
  }
