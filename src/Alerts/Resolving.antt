-- ===== src/Alerts/Resolving.antt =====
-- The first loop of `reconcileAlerts` (server/core/src/db/alerts.ts): resolving the active alerts
-- of a server whose candidates are gone, one by one, does what one UPDATE over the table would do.
use pmeow.Prelude.{
  ℕ, String, Bool, true, not, ◌&&◌, ◌||◌, List, [], ◌∷◌, map, some, ◌==◌, nat_eq, string_eq, eq_iff,
  if◌then◌else◌, ◌≡◌, ◌≢◌, refl, arith, ap, ◌∙◌, sym, inl, inr, Bool-cases, leb, All, Distinct,
  All-weaken, All-both, All-select, All-of_select, Distinct-select, any, any-select, any_congr,
  any_unique, map_congr, map-map, map_ext, map_same, select, map_has, find-map, find_self,
}
use pmeow.Alerts.Types.{AlertStatus, active, resolved, silenced, Source, is_active, alert_key}
use pmeow.Alerts.Store.{
  AlertAnomaly, AlertRecord, AlertDb, get_alert_by_id, get_active_alerts, set_status, order_desc,
  insert_desc, in_server, in_status,
}
use pmeow.Alerts.Reconcile.{Work, resolve_missing, resolve_all}
use pmeow.Alerts.Invariant.{IsValid, set_status-IsValid}

is_active-eq : (s : AlertStatus) → is_active s ≡ true → s ≡ active
is_active-eq active h = refl
is_active-eq resolved h = cc
is_active-eq silenced h = cc

module _ {V D : Type 0} where
  module _ {κ} (P : AlertRecord V D → Type κ) where
    insert_desc-All :
        (r : AlertRecord V D) (xs : List (AlertRecord V D))
        → P r
        → All P xs
        → All P (insert_desc r xs)
    unfolding insert_desc
    insert_desc-All r [] h k = (h, tt)
    insert_desc-All r (x ∷ xs) h (k, ks) = elim (Bool-cases (leb x.updated_at r.updated_at)) [
      | inl t ↦ rw t (h, (k, ks))
      | inr f ↦ rw f (k, insert_desc-All r xs h ks)
    ]

    pub order_desc-All : (xs : List (AlertRecord V D)) → All P xs → All P (order_desc xs)
    unfolding order_desc
    order_desc-All [] h = tt
    order_desc-All (x ∷ xs) (h, hs) = insert_desc-All x (order_desc xs) h (order_desc-All xs hs)

  insert_desc-Distinct :
      (r : AlertRecord V D) (xs : List (AlertRecord V D))
      → All (λ y. r.id ≢ y.id) xs
      → Distinct (λ x. x.id) xs
      → Distinct (λ x. x.id) (insert_desc r xs)
  unfolding insert_desc
  insert_desc-Distinct r [] h d = (tt, tt)
  insert_desc-Distinct r (x ∷ xs) (h, hs) (d, ds) =
      elim (Bool-cases (leb x.updated_at r.updated_at)) [
        | inl t ↦ rw t ((h, hs), (d, ds))
        | inr f ↦ rw f (insert_desc-All _ r xs (λ e. h (sym e)) d, insert_desc-Distinct r xs hs ds)
      ]

  pub order_desc-Distinct :
      (xs : List (AlertRecord V D)) → Distinct (λ x. x.id) xs → Distinct (λ x. x.id) (order_desc xs)
  unfolding order_desc
  order_desc-Distinct [] d = tt
  order_desc-Distinct (x ∷ xs) (d, ds) =
      insert_desc-Distinct x (order_desc xs) (order_desc-All _ xs d) (order_desc-Distinct xs ds)

  any-insert_desc :
      (p : AlertRecord V D → Bool) (r : AlertRecord V D) (xs : List (AlertRecord V D))
      → any p (insert_desc r xs) ≡ (p r || any p xs)
  unfolding insert_desc
  any-insert_desc p r [] = refl
  any-insert_desc p r (x ∷ xs) = ground (arith, any-insert_desc p r xs)

  any-order_desc :
      (p : AlertRecord V D → Bool) (xs : List (AlertRecord V D)) → any p (order_desc xs) ≡ any p xs
  unfolding order_desc
  any-order_desc p [] = refl
  any-order_desc p (x ∷ xs) =
      any-insert_desc p x (order_desc xs) ∙ ap (λ b. p x || b) (any-order_desc p xs)

  abbrev pub missing : List (String × AlertAnomaly V D) → AlertRecord V D → Bool
  missing wanted r = not (map_has (alert_key r.alert_type r.fingerprint) wanted)

  -- The table after one UPDATE of the active alerts of a server that have no candidate.
  abbrev pub resolve_if :
      List (String × AlertAnomaly V D) → String → ℕ → AlertRecord V D → AlertRecord V D
  resolve_if wanted sid now r =
      if (r.server_id == sid && is_active r.status) && missing wanted r
      then record r { status = resolved; updated_at = now }
      else r

  module _ (source : Source) (now : ℕ) (wanted : List (String × AlertAnomaly V D)) where
    abbrev resolve_one : AlertRecord V D → AlertRecord V D → AlertRecord V D
    resolve_one a r =
        if a.id == r.id && missing wanted a
        then record r { status = resolved; updated_at = now }
        else r

    abbrev resolve_in : List (AlertRecord V D) → AlertRecord V D → AlertRecord V D
    resolve_in listed r =
        if any (λ a. a.id == r.id && missing wanted a) listed
        then record r { status = resolved; updated_at = now }
        else r

    resolve_missing-map :
        (a : AlertRecord V D) (w : Work V D)
        → (resolve_missing source now wanted a w).db.alerts ≡ map (resolve_one a) w.db.alerts
    unfolding resolve_missing set_status
    resolve_missing-map a w =
        elim (Bool-cases (map_has (alert_key a.alert_type a.fingerprint) wanted)) [
          | inl has ↦ rw has (sym (map_same (resolve_one a) w.db.alerts (λ r. ground arith)))
          | inr gone ↦ rw gone (
              map_ext _ (resolve_one a) w.db.alerts
                (λ r. ground (arith, eq_iff r.id a.id, eq_iff a.id r.id)))
        ]

    resolve_all-map :
        (listed : List (AlertRecord V D)) (w : Work V D)
        → (resolve_all source now wanted listed w).db.alerts ≡ map (resolve_in listed) w.db.alerts
    unfolding resolve_all
    resolve_all-map [] w = sym (map_same (resolve_in []) w.db.alerts (λ r. refl))
    resolve_all-map (a ∷ listed) w =
        resolve_all-map listed (resolve_missing source now wanted a w)
        ∙ ap (map (resolve_in listed)) (resolve_missing-map a w)
        ∙ map-map (resolve_in listed) (resolve_one a) (resolve_in (a ∷ listed)) w.db.alerts
            (λ r. ground arith)

    -- Of the alerts listed for a server, those with the id of a row of the table are that row.
    listed_iff :
        (sid : String) (db : AlertDb V D)
        → sid ≢ ""
        → IsValid db
        → All
            (λ r.
              any (λ a. a.id == r.id && missing wanted a) (get_active_alerts db sid)
              ≡ ((r.server_id == sid && is_active r.status) && missing wanted r))
            db.alerts
    unfolding get_active_alerts
    listed_iff sid db known v =
        All-weaken _ _ db.alerts
          (λ r e.
            any-order_desc _
              (select (λ x. in_server (some sid) x && in_status (some active) x) db.alerts)
            ∙ any-select _ (λ x. in_server (some sid) x && in_status (some active) x) db.alerts
            ∙ any_congr _ _ db.alerts (λ a. ground (arith, eq_iff sid ""))
            ∙ e)
          (any_unique (λ r. r.id)
            (λ r. (r.server_id == sid && is_active r.status) && missing wanted r) db.alerts v.ids)

    pub resolve_all-resolve_if :
        (sid : String) (w : Work V D)
        → sid ≢ ""
        → IsValid w.db
        → (resolve_all source now wanted (get_active_alerts w.db sid) w).db.alerts
          ≡ map (resolve_if wanted sid now) w.db.alerts
    resolve_all-resolve_if sid w known v =
        resolve_all-map (get_active_alerts w.db sid) w
        ∙ map_congr _ _ w.db.alerts
            (All-weaken _ _ w.db.alerts (λ r e. rw e) (listed_iff sid w.db known v))

    -- The rows still to be visited are rows of the table, and active.
    abbrev IsListed : AlertDb V D → AlertRecord V D → Type 0
    IsListed db a = (get_alert_by_id db a.id ≡ some a) × (a.status ≡ active)

    resolve_missing-IsListed :
        (a : AlertRecord V D) (w : Work V D) (bs : List (AlertRecord V D))
        → All (λ b. a.id ≢ b.id) bs
        → All (IsListed w.db) bs
        → All (IsListed (resolve_missing source now wanted a w).db) bs
    unfolding get_alert_by_id
    resolve_missing-IsListed a w [] d h = tt
    resolve_missing-IsListed a w (b ∷ bs) (d, ds) ((h, st), hs) = (
      (
        rw (resolve_missing-map a w) (
            rw (find-map (λ x. x.id == b.id) (resolve_one a) w.db.alerts (λ x. ground arith))
              (ground (arith, eq_iff a.id b.id))),
        st,
      ),
      resolve_missing-IsListed a w bs ds hs,
    )

    resolve_missing-IsValid :
        (a : AlertRecord V D) (w : Work V D)
        → IsListed w.db a
        → IsValid w.db
        → IsValid (resolve_missing source now wanted a w).db
    unfolding resolve_missing
    resolve_missing-IsValid a w (found, st) v =
        elim (Bool-cases (map_has (alert_key a.alert_type a.fingerprint) wanted)) [
          | inl has ↦ rw has v
          | inr gone ↦
              rw gone (set_status-IsValid a.id active resolved source now w.db a found st v)
        ]

    resolve_each-IsValid :
        (listed : List (AlertRecord V D)) (w : Work V D)
        → Distinct (λ x. x.id) listed
        → All (IsListed w.db) listed
        → IsValid w.db
        → IsValid (resolve_all source now wanted listed w).db
    unfolding resolve_all
    resolve_each-IsValid [] w d h v = v
    resolve_each-IsValid (a ∷ listed) w (d, ds) (h, hs) v =
        resolve_each-IsValid listed (resolve_missing source now wanted a w) ds
          (resolve_missing-IsListed a w listed d hs) (resolve_missing-IsValid a w h v)

    pub resolve_all-IsValid :
        (sid : String) (w : Work V D)
        → IsValid w.db
        → IsValid (resolve_all source now wanted (get_active_alerts w.db sid) w).db
    unfolding get_active_alerts get_alert_by_id
    resolve_all-IsValid sid w v =
        resolve_each-IsValid _ w (order_desc-Distinct _ (Distinct-select _ _ w.db.alerts v.ids))
          (order_desc-All _ _ (
            All-both _ _ _ (All-select _ _ w.db.alerts (find_self (λ x. x.id) w.db.alerts v.ids)) (
              All-weaken _ _ _ (λ r e. is_active-eq r.status (ground arith))
                (All-of_select (λ x. in_server (some sid) x && in_status (some active) x)
                  w.db.alerts))))
          v
