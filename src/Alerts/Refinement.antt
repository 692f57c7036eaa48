-- ===== src/Alerts/Refinement.antt =====
-- `reconcileAlerts` (server/core/src/db/alerts.ts) against its specification: a function on the
-- status of one alert, which knows neither tables nor loops.

use mathlib.Core.Option.{some-injective}
use pmeow.Prelude.{
  ℕ, String, Bool, true, false, ◌&&◌, ◌||◌, List, [], ◌∷◌, map, Option, none, some, ◌==◌, nat_eq,
  string_eq, eq_iff, if◌then◌else◌, ◌≡◌, ◌≢◌, refl, arith, ap₂, ◌∙◌, sym, subst, inl, inr,
  Bool-cases, Option-cases, All, any, any_congr, find, find-map, find_holds, map_set, map_has,
  map_values, map_has-map_set,
}
use pmeow.Alerts.Types.{
  AlertType, AlertStatus, active, resolved, silenced, Source, type_eq, alert_key,
  alert_key_injective,
}
use pmeow.Alerts.Store.{
  AlertAnomaly, AlertRecord, AlertDb, get_alert_by_key, has_key, get_active_alerts,
}
use pmeow.Alerts.Reconcile.{
  Work, key_of, fill_map, candidate_map, resolve_all, process_all, reconcile_alerts,
}
use pmeow.Alerts.Invariant.{IsValid}
use pmeow.Alerts.Resolving.{resolve_if, resolve_all-resolve_if, resolve_all-IsValid}
use pmeow.Alerts.Activating.{status_of, with_candidate, process_candidate-Settles}

-- The status of one alert after a detection round.
abbrev pub next_status : Bool → Option AlertStatus → Option AlertStatus
next_status true o = some (with_candidate o)
next_status false none = none
next_status false (some active) = some resolved
next_status false (some resolved) = some resolved
next_status false (some silenced) = some silenced

with_candidate_idem :
    (o : Option AlertStatus) → with_candidate (some (with_candidate o)) ≡ with_candidate o
with_candidate_idem none = refl
with_candidate_idem (some active) = refl
with_candidate_idem (some resolved) = refl
with_candidate_idem (some silenced) = refl

module _ {V D : Type 0} where
  -- Some candidate has this type and fingerprint.
  abbrev pub raised : List (AlertAnomaly V D) → AlertType → String → Bool
  raised cs t fp = any (λ c. c.alert_type == t && c.fingerprint == fp) cs

  key_of_iff :
      (c : AlertAnomaly V D) (t : AlertType) (fp : String)
      → (key_of c == alert_key t fp) ≡ (c.alert_type == t && c.fingerprint == fp)
  key_of_iff c t fp = elim (Bool-cases (c.alert_type == t && c.fingerprint == fp)) [
    | inl hit ↦
        let e : c.alert_type ≡ t = (eq_iff _ _).0 (ground arith) in
        let d : c.fingerprint ≡ fp = (eq_iff _ _).0 (ground arith) in
        rw hit ((eq_iff _ _).1 (ap₂ alert_key e d))
    | inr off ↦ rw off (
        ground (
          arith,
          eq_iff (key_of c) (alert_key t fp),
          alert_key_injective c.alert_type t c.fingerprint fp,
          eq_iff c.alert_type t,
          eq_iff c.fingerprint fp,
        ))
  ]

  map_has-fill_map :
      (k : String) (m : List (String × AlertAnomaly V D)) (cs : List (AlertAnomaly V D))
      → map_has k (fill_map m cs) ≡ (map_has k m || any (λ c. key_of c == k) cs)
  unfolding fill_map
  map_has-fill_map k m [] = ground arith
  map_has-fill_map k m (c ∷ cs) =
      map_has-fill_map k (map_set (key_of c) c m) cs
      ∙ ground (arith, map_has-map_set (key_of c) k c m)

  pub map_has-candidate_map :
      (cs : List (AlertAnomaly V D)) (t : AlertType) (fp : String)
      → map_has (alert_key t fp) (candidate_map cs) ≡ raised cs t fp
  map_has-candidate_map cs t fp =
      map_has-fill_map (alert_key t fp) [] cs ∙ any_congr _ _ cs (λ c. key_of_iff c t fp)

  abbrev IsKeyed : String × AlertAnomaly V D → Type 0
  IsKeyed e = e.0 ≡ key_of e.1

  map_set-IsKeyed :
      (c : AlertAnomaly V D) (m : List (String × AlertAnomaly V D))
      → All IsKeyed m
      → All IsKeyed (map_set (key_of c) c m)
  map_set-IsKeyed c [] h = (refl, tt)
  map_set-IsKeyed c ((j, d) ∷ m) (h, hs) = elim (Bool-cases (j == key_of c)) [
    | inl hit ↦ rw hit ((eq_iff _ _).0 hit, hs)
    | inr off ↦ rw off (h, map_set-IsKeyed c m hs)
  ]

  fill_map-IsKeyed :
      (m : List (String × AlertAnomaly V D)) (cs : List (AlertAnomaly V D))
      → All IsKeyed m
      → All IsKeyed (fill_map m cs)
  unfolding fill_map
  fill_map-IsKeyed m [] h = h
  fill_map-IsKeyed m (c ∷ cs) h =
      fill_map-IsKeyed (map_set (key_of c) c m) cs (map_set-IsKeyed c m h)

  any-map_values :
      (k : String) (m : List (String × AlertAnomaly V D))
      → All IsKeyed m
      → any (λ c. key_of c == k) (map_values m) ≡ map_has k m
  any-map_values k [] h = refl
  any-map_values k ((j, c) ∷ m) (h, hs) = rw (h, any-map_values k m hs)

  raised-map_values :
      (cs : List (AlertAnomaly V D)) (t : AlertType) (fp : String)
      → raised (map_values (candidate_map cs)) t fp ≡ raised cs t fp
  raised-map_values cs t fp =
      any_congr _ _ (map_values (candidate_map cs)) (λ c. sym (key_of_iff c t fp))
      ∙ any-map_values (alert_key t fp) (candidate_map cs) (fill_map-IsKeyed [] cs tt)
      ∙ map_has-candidate_map cs t fp

  module _ (source : Source) (now : ℕ) (sid : String) where
    -- The statuses of the server's alerts with a candidate move, the others stay.
    abbrev Raises : List (AlertAnomaly V D) → AlertDb V D → AlertDb V D → Type 0
    Raises cs db db' =
        (sid' : String) (t : AlertType) (fp : String)
        → status_of db' sid' t fp ≡ (
            if sid == sid' && raised cs t fp
            then some (with_candidate (status_of db sid' t fp))
            else status_of db sid' t fp)

    process_all-Raises :
        (cs : List (AlertAnomaly V D)) (w : Work V D)
        → IsValid w.db
        → (w' : Work V D) × (process_all source now sid cs w ≡ some w')
          × IsValid w'.db
          × Raises cs w.db w'.db
    unfolding process_all
    process_all-Raises [] w v = (w, refl, v, λ sid' t fp. ground arith)
    process_all-Raises (c ∷ cs) w v =
        let (w', e, v', moves) = process_candidate-Settles source now sid c w v in
        let (w'', e', v'', raises) = process_all-Raises cs w' v' in
        (
          w'',
          rw (e, process_all) e',
          v'',
          λ sid' t fp. ground (
            arith,
            moves sid' t fp,
            raises sid' t fp,
            with_candidate_idem (status_of w.db sid' t fp),
          ),
        )

    row_status :
        (cs : List (AlertAnomaly V D)) (r : AlertRecord V D) (sid' : String) (t : AlertType)
        (fp : String)
        → has_key sid' t fp r ≡ true
        → (if sid == sid' && raised cs t fp
            then some (with_candidate (some (resolve_if (candidate_map cs) sid now r).status))
            else some (resolve_if (candidate_map cs) sid now r).status)
          ≡ (if sid == sid' then next_status (raised cs t fp) (some r.status) else some r.status)
    row_status cs r sid' t fp keyed =
        let at_server : r.server_id ≡ sid' = (eq_iff _ _).0 (ground arith) in
        let at_type : r.alert_type ≡ t = (eq_iff _ _).0 (ground arith) in
        let at_print : r.fingerprint ≡ fp = (eq_iff _ _).0 (ground arith) in
        by_cases r.status refl (rw (at_type, at_print) (map_has-candidate_map cs t fp))
          (rw at_server)
      where
        by_cases :
            (s : AlertStatus)
            → r.status ≡ s
            → map_has (alert_key r.alert_type r.fingerprint) (candidate_map cs) ≡ raised cs t fp
            → (r.server_id == sid) ≡ (sid' == sid)
            → (if sid == sid' && raised cs t fp
                then some (with_candidate (some (resolve_if (candidate_map cs) sid now r).status))
                else some (resolve_if (candidate_map cs) sid now r).status)
              ≡ (if sid == sid'
                  then next_status (raised cs t fp) (some r.status)
                  else some r.status)
        by_cases active is has at = ground (arith, eq_iff sid sid', eq_iff sid' sid)
        by_cases resolved is has at = ground (arith, eq_iff sid sid', eq_iff sid' sid)
        by_cases silenced is has at = ground (arith, eq_iff sid sid', eq_iff sid' sid)

    resolve_if-status :
        (cs : List (AlertAnomaly V D)) (db db' : AlertDb V D) (sid' : String) (t : AlertType)
        (fp : String)
        → db'.alerts ≡ map (resolve_if (candidate_map cs) sid now) db.alerts
        → (if sid == sid' && raised cs t fp
            then some (with_candidate (status_of db' sid' t fp))
            else status_of db' sid' t fp)
          ≡ (if sid == sid'
              then next_status (raised cs t fp) (status_of db sid' t fp)
              else status_of db sid' t fp)
    unfolding get_alert_by_key
    resolve_if-status cs db db' sid' t fp same = rw same (
        rw
          (find-map (has_key sid' t fp) (resolve_if (candidate_map cs) sid now) db.alerts
            (λ r. ground arith))
          (elim (Option-cases (find (has_key sid' t fp) db.alerts)) [
            | inl absent ↦ rw absent (ground arith)
            | inr (r, found) ↦
                rw found
                  (row_status cs r sid' t fp (find_holds (has_key sid' t fp) db.alerts r found))
          ]))

  -- A round of detection never fails. On a valid database it keeps it valid, moves each alert of the
  -- server as `next_status` says, by whether a candidate has its type and fingerprint, and leaves
  -- every other server's alerts alone.
  pub reconcile_alerts-refines :
      (source : Source) (now : ℕ) (sid : String) (cs : List (AlertAnomaly V D)) (db : AlertDb V D)
      → sid ≢ ""
      → IsValid db
      → (w : Work V D) × (reconcile_alerts source now sid cs db ≡ some w)
        × IsValid w.db
        × ((sid' : String) (t : AlertType) (fp : String)
            → status_of w.db sid' t fp ≡ (
                if sid == sid'
                then next_status (raised cs t fp) (status_of db sid' t fp)
                else status_of db sid' t fp))
  unfolding reconcile_alerts
  reconcile_alerts-refines source now sid cs db known v =
      let start : Work V D = record { db = db; changes = [] } in
      let wanted = candidate_map cs in
      let w₁ : Work V D = resolve_all source now wanted (get_active_alerts db sid) start in
      let (w, e, valid, raises) =
        process_all-Raises source now sid (map_values wanted) w₁
          (resolve_all-IsValid source now wanted sid start v) in
      (
        w,
        e,
        valid,
        λ sid' t fp.
            raises sid' t fp
            ∙ rw (raised-map_values cs t fp) (
                resolve_if-status source now sid cs db w₁.db sid' t fp
                  (resolve_all-resolve_if source now wanted sid start known v)),
      )

  pub reconcile_alerts-IsValid :
      (source : Source) (now : ℕ) (sid : String) (cs : List (AlertAnomaly V D)) (db : AlertDb V D)
      (w : Work V D)
      → reconcile_alerts source now sid cs db ≡ some w
      → IsValid db
      → IsValid w.db
  unfolding reconcile_alerts
  reconcile_alerts-IsValid source now sid cs db w done v =
      let start : Work V D = record { db = db; changes = [] } in
      let (w', e, valid, _) =
        process_all-Raises source now sid (map_values (candidate_map cs)) _
          (resolve_all-IsValid source now (candidate_map cs) sid start v) in
      subst (λ (x : Work V D). IsValid x.db) (some-injective _ _ (sym e ∙ done)) valid
