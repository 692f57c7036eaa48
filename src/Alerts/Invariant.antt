-- ===== src/Alerts/Invariant.antt =====
-- What holds of the alert tables at all times: ids and keys are unique, and the log of transitions,
-- replayed from `resolved`, gives each alert's status.
use pmeow.Prelude.{
  ℕ, ◌≤◌, ◌<◌, String, true, false, List, [], ◌∷◌, ◌++◌, Option, none, some, ◌==◌, nat_eq,
  string_eq, eq_iff, if◌then◌else◌, ◌≡◌, refl, arith, ap, All, Distinct, All-map, All-weaken,
  All-both, All-append_one, Distinct-map, Distinct-append_one, find_only, find_holds, find-All,
  Bool-cases, inl, inr, ◌∙◌, sym,
}
use pmeow.Alerts.Types.{
  AlertType, AlertStatus, active, resolved, silenced, Source, same_status, type_eq,
}
use pmeow.Alerts.Store.{
  AlertAnomaly, AlertRecord, AlertDb, AlertTransition, get_alert_by_id, write_transition,
  set_status, has_key, transition, update_alert_value, add_alert, new_alert,
}

abbrev pub advance : Option AlertStatus → AlertStatus → AlertStatus → Option AlertStatus
advance none from to = none
advance (some s) from to = if same_status from s then some to else none

-- The status of an alert after the log, read from its start; `none` where a transition does not
-- leave from the status that the alert is in.
abbrev pub replay_from : ℕ → Option AlertStatus → List AlertTransition → Option AlertStatus
replay_from id o [] = o
replay_from id o (t ∷ ts) =
    replay_from id (if t.alert_id == id then advance o t.from_status t.to_status else o) ts

abbrev pub replay : ℕ → List AlertTransition → Option AlertStatus
replay id ts = replay_from id (some resolved) ts

replay-append_one :
    (id : ℕ) (o : Option AlertStatus) (ts : List AlertTransition) (t : AlertTransition)
    → replay_from id o (ts ++ t ∷ []) ≡ (
        if t.alert_id == id
        then advance (replay_from id o ts) t.from_status t.to_status
        else replay_from id o ts)
replay-append_one id o [] t = refl
replay-append_one id o (s ∷ ts) t =
    replay-append_one id (if s.alert_id == id then advance o s.from_status s.to_status else o) ts t

pub same_status_refl : (s : AlertStatus) → same_status s s ≡ true
same_status_refl active = refl
same_status_refl resolved = refl
same_status_refl silenced = refl

module _ {V D : Type 0} where
  abbrev pub key : AlertRecord V D → String × AlertType × String
  key r = (r.server_id, r.alert_type, r.fingerprint)

  pub record IsValid (db : AlertDb V D) : Type 0 where
    pub fresh : All (λ r. r.id < db.next_id) db.alerts
    pub ids : Distinct (λ r. r.id) db.alerts
    pub keys : Distinct key db.alerts
    pub logged : All (λ r. replay r.id db.transitions ≡ some r.status) db.alerts
    pub unused : (id : ℕ) → db.next_id ≤ id → replay id db.transitions ≡ some resolved

  -- The one row that a lookup by id finds.
  pub only_found :
      (db : AlertDb V D) (id : ℕ) (r : AlertRecord V D)
      → get_alert_by_id db id ≡ some r
      → IsValid db
      → All (λ x. x.id ≡ id → x ≡ r) db.alerts
  unfolding get_alert_by_id
  only_found db id r found v =
      let here : r.id ≡ id = (eq_iff _ _).0 (find_holds (λ x. x.id == id) db.alerts r found) in
      All-weaken _ _ db.alerts (λ x only e. only (e ∙ sym here))
        (find_only (λ x. x.id) (λ x. x.id == id) db.alerts r v.ids found)

  log_one :
      (id : ℕ) (from to : AlertStatus) (source : Source) (now : ℕ) (ts : List AlertTransition)
      (x : AlertRecord V D)
      → (x.id ≡ id → x.status ≡ from)
      → replay x.id ts ≡ some x.status
      → replay x.id (ts ++ transition id from to source now ∷ [])
        ≡ some (if x.id == id then to else x.status)
  log_one id from to source now ts x here h = elim (Bool-cases (x.id == id)) [
    | inl t ↦
        let e : x.status ≡ from = here ((eq_iff _ _).0 t) in
        rw (replay-append_one x.id (some resolved) ts (transition id from to source now))
          (ground (arith, same_status_refl from, eq_iff x.id id))
    | inr f ↦
        rw (replay-append_one x.id (some resolved) ts (transition id from to source now))
          (ground (arith, eq_iff x.id id))
  ]

  pub set_status-IsValid :
      (id : ℕ) (from to : AlertStatus) (source : Source) (now : ℕ) (db : AlertDb V D)
      (r : AlertRecord V D)
      → get_alert_by_id db id ≡ some r
      → r.status ≡ from
      → IsValid db
      → IsValid (set_status id from to source now db)
  unfolding set_status get_alert_by_id
  set_status-IsValid id from to source now db r found is v = record {
    fresh = All-map _ _ _ db.alerts (λ x h. ground arith) v.fresh;
    ids = Distinct-map _ _ db.alerts (λ x. ground arith) v.ids;
    keys = Distinct-map _ _ db.alerts (λ x. ground arith) v.keys;
    logged =
        All-map _ _ _ db.alerts
          (λ x (only, h). ground (
            arith,
            log_one id from to source now db.transitions x
                (λ e. ap (λ (y : AlertRecord V D). y.status) (only e) ∙ is) h,
          ))
          (All-both _ _ db.alerts (only_found db id r found v) v.logged);
    unused = λ i above. ground (
      arith,
      replay-append_one i (some resolved) db.transitions (transition id from to source now),
      v.unused i above,
      find-All (λ x. x.id < db.next_id) (λ x. x.id == id) db.alerts r v.fresh found,
      find_holds (λ x. x.id == id) db.alerts r found,
    );
  }

  pub update_alert_value-IsValid :
      (id : ℕ) (c : AlertAnomaly V D) (now : ℕ) (db : AlertDb V D)
      → IsValid db
      → IsValid (update_alert_value id c now db)
  unfolding update_alert_value
  update_alert_value-IsValid id c now db v = record {
    fresh = All-map _ _ _ db.alerts (λ x h. ground arith) v.fresh;
    ids = Distinct-map _ _ db.alerts (λ x. ground arith) v.ids;
    keys = Distinct-map _ _ db.alerts (λ x. ground arith) v.keys;
    logged = All-map _ _ _ db.alerts (λ x h. ground arith) v.logged;
    unused = v.unused;
  }

  -- A new row under the next id, with its first entry in the log.
  pub add_alert-IsValid :
      (sid : String) (c : AlertAnomaly V D) (source : Source) (now : ℕ) (db : AlertDb V D)
      → All (λ r. has_key sid c.alert_type c.fingerprint r ≡ false) db.alerts
      → IsValid db
      → IsValid (
          write_transition db.next_id resolved active source now
            (add_alert (new_alert db.next_id sid c now) db))
  unfolding write_transition add_alert
  add_alert-IsValid sid c source now db absent v = record {
    fresh =
        All-append_one _ db.alerts _ (All-weaken _ _ db.alerts (λ x h. omega arith) v.fresh)
          (omega arith);
    ids =
        Distinct-append_one _ db.alerts _ v.ids
          (All-weaken _ _ db.alerts (λ x h. omega arith) v.fresh);
    keys = Distinct-append_one _ db.alerts _ v.keys (
        All-weaken _ _ db.alerts
          (λ x h e. ground (
            arith,
            eq_iff x.server_id sid,
            eq_iff x.alert_type c.alert_type,
            eq_iff x.fingerprint c.fingerprint,
          ))
          absent);
    logged =
        All-append_one _ db.alerts _
          (All-weaken _ _ db.alerts
            (λ x (h, below).
              ground (arith, replay-append_one x.id (some resolved) db.transitions entry, h))
            (All-both _ _ db.alerts v.logged v.fresh))
          (ground (
            arith,
            replay-append_one db.next_id (some resolved) db.transitions entry,
            v.unused db.next_id (omega arith),
          ));
    unused = λ i above.
        ground (
          arith,
          replay-append_one i (some resolved) db.transitions entry,
          v.unused i (omega arith),
        );
  }
    where
      entry : AlertTransition
      entry = transition db.next_id resolved active source now
