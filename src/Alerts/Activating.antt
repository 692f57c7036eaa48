-- ===== src/Alerts/Activating.antt =====
-- The second loop of `reconcileAlerts` (server/core/src/db/alerts.ts): one candidate creates,
-- reactivates or refreshes the one alert with its key, and touches no other.
use mathlib.Core.Option
use pmeow.Prelude.{
  ℕ, String, Bool, true, false, ◌&&◌, List, [], ◌∷◌, Option, none, some, ◌==◌, nat_eq, string_eq,
  eq_iff, eq_refl, if◌then◌else◌, ◌≡◌, ◌↔◌, refl, arith, inl, inr, Bool-cases, Option-cases, any,
  find, find_holds, find-append_one, find_same_key, All-of_find-none, find_self, find-All, find-map,
  map-map, update_where, or_else,
}
use pmeow.Alerts.Types.{AlertType, AlertStatus, active, resolved, silenced, Source, type_eq}
use pmeow.Alerts.Store.{
  AlertAnomaly, AlertRecord, AlertDb, get_alert_by_id, get_alert_by_key, has_key, set_status,
  update_alert_value, revalue, insert_alert, add_alert, new_alert, write_transition,
}
use pmeow.Alerts.Reconcile.{Work, process_candidate, by_status, refresh, reactivate}
use pmeow.Alerts.Invariant.{
  IsValid, set_status-IsValid, update_alert_value-IsValid, add_alert-IsValid, key,
}

-- What a candidate does to the status of its alert.
abbrev pub with_candidate : Option AlertStatus → AlertStatus
with_candidate none = active
with_candidate (some active) = active
with_candidate (some resolved) = active
with_candidate (some silenced) = silenced

abbrev pub same_key : String → AlertType → String → String → AlertType → String → Bool
same_key sid t fp sid' t' fp' = sid == sid' && (t == t' && fp == fp')

pub same_key_iff :
    (sid : String) (t : AlertType) (fp : String) (sid' : String) (t' : AlertType) (fp' : String)
    → (same_key sid t fp sid' t' fp' ≡ true) ↔ ((sid ≡ sid') × (t ≡ t') × (fp ≡ fp'))
same_key_iff sid t fp sid' t' fp' = ground (arith, eq_iff sid sid', eq_iff t t', eq_iff fp fp')

module _ {V D : Type 0} where
  abbrev pub status_of : AlertDb V D → String → AlertType → String → Option AlertStatus
  status_of db sid t fp = Option.map (λ r. r.status) (get_alert_by_key db sid t fp)

  any_of_find :
      (p : AlertRecord V D → Bool) (xs : List (AlertRecord V D))
      → find p xs ≡ none
      → any p xs ≡ false
  any_of_find p [] e = refl
  any_of_find p (x ∷ xs) e = ground (arith, any_of_find p xs)

  -- Two lookups that find rows find the same row exactly when they look for the same key.
  same_row_iff :
      (db : AlertDb V D) (sid : String) (t : AlertType) (fp : String) (sid' : String)
      (t' : AlertType) (fp' : String) (e r : AlertRecord V D)
      → IsValid db
      → find (has_key sid t fp) db.alerts ≡ some e
      → find (has_key sid' t' fp') db.alerts ≡ some r
      → (r.id == e.id) ≡ same_key sid t fp sid' t' fp'
  same_row_iff db sid t fp sid' t' fp' e r v found here = ground (
    arith,
    eq_iff r.id e.id,
    find_same_key (λ x. x.id) (has_key sid' t' fp') (has_key sid t fp) db.alerts r e v.ids here
        found,
    find_same_key key (has_key sid' t' fp') (has_key sid t fp) db.alerts r e v.keys here found,
    find_holds (has_key sid t fp) db.alerts e found,
    find_holds (has_key sid' t' fp') db.alerts r here,
    eq_iff e.server_id sid,
    eq_iff e.alert_type t,
    eq_iff e.fingerprint fp,
    eq_iff r.server_id sid',
    eq_iff r.alert_type t',
    eq_iff r.fingerprint fp',
    eq_iff sid sid',
    eq_iff t t',
    eq_iff fp fp',
  )

  module _ (source : Source) (now : ℕ) (sid : String) (c : AlertAnomaly V D) where
    -- The statuses after a candidate: its own key moves, the others stay.
    abbrev pub Moves : AlertDb V D → AlertDb V D → Type 0
    Moves db db' =
        (sid' : String) (t : AlertType) (fp : String)
        → status_of db' sid' t fp ≡ (
            if same_key sid c.alert_type c.fingerprint sid' t fp
            then some (with_candidate (status_of db sid' t fp))
            else status_of db sid' t fp)

    abbrev here : String → AlertType → String → Bool
    here sid' t fp = same_key sid c.alert_type c.fingerprint sid' t fp

    lookup_here :
        (db : AlertDb V D) (sid' : String) (t : AlertType) (fp : String)
        → here sid' t fp ≡ true
        → find (has_key sid' t fp) db.alerts
          ≡ find (has_key sid c.alert_type c.fingerprint) db.alerts
    lookup_here db sid' t fp hit =
        let (a, b, d) = (same_key_iff sid c.alert_type c.fingerprint sid' t fp).0 hit in
        rw (← a, ← b, ← d)

    new-Moves :
        (db : AlertDb V D)
        → find (has_key sid c.alert_type c.fingerprint) db.alerts ≡ none
        → Moves db (
            write_transition db.next_id resolved active source now
              (add_alert (new_alert db.next_id sid c now) db))
    unfolding write_transition add_alert get_alert_by_key
    new-Moves db absent sid' t fp =
        rw (find-append_one (has_key sid' t fp) db.alerts (new_alert db.next_id sid c now))
          (elim (Bool-cases (here sid' t fp)) [
            | inl hit ↦ rw (hit, lookup_here db sid' t fp hit, absent)
            | inr off ↦ rw off (or_none (find (has_key sid' t fp) db.alerts))
          ])
      where
        or_none :
            (o : Option (AlertRecord V D))
            → Option.map (λ r. r.status) (or_else o none) ≡ Option.map (λ r. r.status) o
        or_none none = refl
        or_none (some r) = refl

    -- An update of the one row that the candidate's key finds.
    update-Moves :
        (db db' : AlertDb V D) (e : AlertRecord V D) (f : AlertRecord V D → AlertRecord V D)
        → IsValid db
        → find (has_key sid c.alert_type c.fingerprint) db.alerts ≡ some e
        → db'.alerts ≡ update_where (λ r. r.id == e.id) f db.alerts
        → ((r : AlertRecord V D) → key (f r) ≡ key r)
        → (f e).status ≡ with_candidate (some e.status)
        → Moves db db'
    unfolding get_alert_by_key
    update-Moves db db' e f v found same keeps to sid' t fp = rw same (
        rw
          (find-map (has_key sid' t fp) (λ r. if r.id == e.id then f r else r) db.alerts
            (λ r. ground (arith, keeps r)))
          (elim (Bool-cases (here sid' t fp)) [
            | inl hit ↦
                rw (hit, lookup_here db sid' t fp hit, found) (ground (arith, eq_iff e.id e.id, to))
            | inr off ↦ rw off (elim (Option-cases (find (has_key sid' t fp) db.alerts)) [
              | inl missed ↦ rw missed
              | inr (r, at_r) ↦ rw at_r (
                  ground (
                    arith,
                    same_row_iff db sid c.alert_type c.fingerprint sid' t fp e r v found at_r,
                    off,
                  ))
            ])
          ]))

    pub insert_alert-absent :
        (db : AlertDb V D)
        → find (has_key sid c.alert_type c.fingerprint) db.alerts ≡ none
        → insert_alert sid c now db
          ≡ some (new_alert db.next_id sid c now, add_alert (new_alert db.next_id sid c now) db)
    unfolding insert_alert
    insert_alert-absent db absent =
        rw (any_of_find (has_key sid c.alert_type c.fingerprint) db.alerts absent) (
          rw
            (
              find-append_one (has_key sid c.alert_type c.fingerprint) db.alerts
                  (new_alert db.next_id sid c now),
              absent,
            )
            (rw (eq_refl sid, eq_refl c.alert_type, eq_refl c.fingerprint)))

    at_id :
        (db : AlertDb V D) (e : AlertRecord V D)
        → IsValid db
        → find (has_key sid c.alert_type c.fingerprint) db.alerts ≡ some e
        → get_alert_by_id db e.id ≡ some e
    unfolding get_alert_by_id
    at_id db e v found =
        find-All (λ a. find (λ x. x.id == a.id) db.alerts ≡ some a)
          (has_key sid c.alert_type c.fingerprint) db.alerts e
          (find_self (λ x. x.id) db.alerts v.ids) found

    at_id_updated :
        (db : AlertDb V D) (e : AlertRecord V D)
        → get_alert_by_id db e.id ≡ some e
        → get_alert_by_id (update_alert_value e.id c now db) e.id ≡ some (revalue c now e)
    unfolding get_alert_by_id update_alert_value
    at_id_updated db e found =
        rw
          (find-map (λ x. x.id == e.id) (λ r. if r.id == e.id then revalue c now r else r) db.alerts
            (λ r. ground arith))
          (rw found (ground (arith, eq_refl e.id)))

    abbrev pub Settles : Work V D → Option (Work V D) → Type 0
    Settles w r = (w' : Work V D) × (r ≡ some w') × IsValid w'.db × Moves w.db w'.db

    refresh-Settles :
        (e : AlertRecord V D) (w : Work V D)
        → e.status ≡ with_candidate (some e.status)
        → IsValid w.db
        → find (has_key sid c.alert_type c.fingerprint) w.db.alerts ≡ some e
        → Settles w (some (refresh source now e c w))
    unfolding refresh update_alert_value
    refresh-Settles e w stays v found = (
      refresh source now e c w,
      refl,
      update_alert_value-IsValid e.id c now w.db v,
      update-Moves w.db _ e (revalue c now) v found refl (λ r. refl) stays,
    )

    reactivate-Settles :
        (e : AlertRecord V D) (w : Work V D)
        → e.status ≡ resolved
        → IsValid w.db
        → find (has_key sid c.alert_type c.fingerprint) w.db.alerts ≡ some e
        → Settles w (some (reactivate source now e c w))
    unfolding reactivate
    reactivate-Settles e w was v found = (
      reactivate source now e c w,
      refl,
      set_status-IsValid e.id resolved active source now (update_alert_value e.id c now w.db)
          (revalue c now e) (at_id_updated w.db e (at_id w.db e v found)) was
          (update_alert_value-IsValid e.id c now w.db v),
      update-Moves w.db _ e (λ r. record (revalue c now r) { status = active; updated_at = now }) v
          found
          (unfold set_status update_alert_value in
            map-map _ _
              (λ r.
                if r.id == e.id
                then record (revalue c now r) { status = active; updated_at = now }
                else r)
              w.db.alerts (λ r. ground arith))
          (λ r. refl) (rw was),
    )

    by_status-Settles :
        (st : AlertStatus) (e : AlertRecord V D) (w : Work V D)
        → e.status ≡ st
        → IsValid w.db
        → find (has_key sid c.alert_type c.fingerprint) w.db.alerts ≡ some e
        → Settles w (some (by_status source now st e c w))
    unfolding by_status
    by_status-Settles resolved e w is v found = reactivate-Settles e w is v found
    by_status-Settles active e w is v found = refresh-Settles e w (rw is) v found
    by_status-Settles silenced e w is v found = refresh-Settles e w (rw is) v found

    pub process_candidate-Settles :
        (w : Work V D) → IsValid w.db → Settles w (process_candidate source now sid c w)
    unfolding process_candidate get_alert_by_key
    process_candidate-Settles w v =
        elim (Option-cases (find (has_key sid c.alert_type c.fingerprint) w.db.alerts)) [
          | inl absent ↦
              rw (absent, process_candidate)
                (rw (insert_alert-absent w.db absent) (
                  _,
                  refl,
                  add_alert-IsValid sid c source now w.db (All-of_find-none _ w.db.alerts absent) v,
                  new-Moves w.db absent,
                ))
          | inr (e, found) ↦
              rw (found, process_candidate) (by_status-Settles e.status e w refl v found)
        ]
