-- ===== src/Alerts/History.antt =====
-- The alert tables over time: any sequence of rounds of detection, user actions and deletions of
-- servers, from empty tables. server/core/src/db/alerts.ts.
use pmeow.Prelude.{
  ℕ, ◌≤◌, ◌<◌, String, Bool, true, false, not, ◌&&◌, List, [], ◌∷◌, Option, some, ◌==◌, nat_eq,
  string_eq, eq_iff, if◌then◌else◌, ◌≡◌, refl, arith, ◌∙◌, inl, inr, Bool-cases, All, All-select,
  All-of_select, All-both, All-weaken, Distinct-select, any, any_unique, any_congr, select,
}
use pmeow.Alerts.Types.{AlertStatus, Source, resolved}
use pmeow.Alerts.Store.{
  AlertAnomaly, AlertRecord, AlertDb, AlertTransition, delete_alerts_by_server_id,
}
use pmeow.Alerts.Reconcile.{Work, reconcile_alerts, silence_alert, unsilence_alert}
use pmeow.Alerts.Invariant.{IsValid, replay_from, advance}
use pmeow.Alerts.Refinement.{reconcile_alerts-IsValid}
use pmeow.Alerts.Silencing.{silence_alert-IsValid, unsilence_alert-IsValid}

replay-select :
    (id : ℕ) (o : Option AlertStatus) (p : ℕ → Bool) (ts : List AlertTransition)
    → p id ≡ true
    → replay_from id o (select (λ t. p t.alert_id) ts) ≡ replay_from id o ts
replay-select id o p [] h = refl
replay-select id o p (t ∷ ts) h = elim (Bool-cases (p t.alert_id)) [
  | inl kept ↦ rw kept (
      replay-select id (if t.alert_id == id then advance o t.from_status t.to_status else o) p ts h)
  | inr gone ↦ rw gone (ground (arith, replay-select id o p ts h, eq_iff t.alert_id id))
]

module _ {V D : Type 0} where
  abbrev goes : AlertDb V D → String → ℕ → Bool
  goes db sid id = any (λ r. r.server_id == sid && r.id == id) db.alerts

  stays :
      (sid : String) (db : AlertDb V D)
      → IsValid db
      → All (λ r. goes db sid r.id ≡ (r.server_id == sid)) db.alerts
  stays sid db v =
      All-weaken _ _ db.alerts (λ r e. any_congr _ _ db.alerts (λ a. ground arith) ∙ e)
        (any_unique (λ r. r.id) (λ r. r.server_id == sid) db.alerts v.ids)

  goes_below :
      (sid : String) (id : ℕ) (n : ℕ) (rows : List (AlertRecord V D))
      → All (λ r. r.id < n) rows
      → n ≤ id
      → any (λ r. r.server_id == sid && r.id == id) rows ≡ false
  goes_below sid id n [] h above = refl
  goes_below sid id n (r ∷ rows) (h, hs) above =
      ground (arith, goes_below sid id n rows hs above, eq_iff r.id id)

  delete-IsValid :
      (sid : String) (db : AlertDb V D) → IsValid db → IsValid (delete_alerts_by_server_id sid db)
  unfolding delete_alerts_by_server_id
  delete-IsValid sid db v = record {
    fresh = All-select _ _ db.alerts v.fresh;
    ids = Distinct-select _ _ db.alerts v.ids;
    keys = Distinct-select _ _ db.alerts v.keys;
    logged =
        All-weaken _ _ _
          (λ r (other, (mine, h)).
            replay-select r.id (some resolved) (λ id. not (goes db sid id)) db.transitions
              (ground (arith, other, mine))
            ∙ h)
          (All-both _ _ _ (All-of_select (λ r. not (r.server_id == sid)) db.alerts) (
            All-select _ (λ r. not (r.server_id == sid)) db.alerts
              (All-both _ _ db.alerts (stays sid db v) v.logged)));
    unused = λ id above.
        replay-select id (some resolved) (λ i. not (goes db sid i)) db.transitions
          (ground (arith, goes_below sid id db.next_id db.alerts v.fresh above))
        ∙ v.unused id above;
  }

  -- The calls that write the alert tables.
  pub data Step (db : AlertDb V D) : AlertDb V D → Type 0 where
    reconciles :
        (source : Source) (now : ℕ) (sid : String) (cs : List (AlertAnomaly V D)) (w : Work V D)
        → reconcile_alerts source now sid cs db ≡ some w
        → Step db w.db
    silences : (now id : ℕ) → Step db (silence_alert now id db).0
    unsilences : (now id : ℕ) → Step db (unsilence_alert now id db).0
    deletes : (sid : String) → Step db (delete_alerts_by_server_id sid db)

  pub data Reach (db : AlertDb V D) : AlertDb V D → Type 0 where
    here : Reach db db
    next : {db' db'' : AlertDb V D} → Reach db db' → Step db' db'' → Reach db db''

  Step-IsValid : {db db' : AlertDb V D} → Step db db' → IsValid db → IsValid db'
  Step-IsValid {db} (reconciles source now sid cs w e) v =
      reconcile_alerts-IsValid source now sid cs db w e v
  Step-IsValid {db} (silences now id) v = silence_alert-IsValid now id db v
  Step-IsValid {db} (unsilences now id) v = unsilence_alert-IsValid now id db v
  Step-IsValid {db} (deletes sid) v = delete-IsValid sid db v

  Reach-keeps : {db db' : AlertDb V D} → IsValid db → Reach db db' → IsValid db'
  Reach-keeps v here = v
  Reach-keeps v (next r s) = Step-IsValid s (Reach-keeps v r)

  abbrev pub empty : AlertDb V D
  empty = record { alerts = []; next_id = 1; transitions = [] }

  -- After any sequence of rounds of detection, silencings, unsilencings and deletions, begun on empty
  -- tables, ids and keys are unique and the log of transitions, replayed for each alert from
  -- `resolved`, is a chain that ends in the alert's status.
  pub Reach-IsValid : (db : AlertDb V D) → Reach empty db → IsValid db
  Reach-IsValid db r =
      Reach-keeps (record { fresh = tt; ids = tt; keys = tt; logged = tt; unused = λ id h. refl }) r
