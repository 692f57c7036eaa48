-- ===== src/Alerts/Silencing.antt =====
-- Silencing and unsilencing, one alert or a batch: server/core/src/db/alerts.ts.
use mathlib.Core.Option
use pmeow.Prelude.{
  ℕ, true, ◌||◌, List, [], ◌∷◌, Option, none, some, ◌==◌, nat_eq, eq_iff, if◌then◌else◌, ◌≡◌, refl,
  arith, ◌∙◌, inl, inr, Bool-cases, Option-cases, find, any, find-map, find_holds,
}
use pmeow.Alerts.Types.{AlertStatus, active, resolved, silenced, Source, user_action, is_silenced}
use pmeow.Alerts.Store.{AlertDb, AlertStateChange, get_alert_by_id, set_status}
use pmeow.Alerts.Reconcile.{
  Work, silence_alert, unsilence_alert, batch, push_change, batch_silence_alerts,
  batch_unsilence_alerts,
}
use pmeow.Alerts.Invariant.{IsValid, set_status-IsValid}

module _ {V D : Type 0} where
  abbrev pub status_at : AlertDb V D → ℕ → Option AlertStatus
  status_at db id = Option.map (λ r. r.status) (get_alert_by_id db id)

  pub status_at-set_status :
      (id : ℕ) (from to : AlertStatus) (source : Source) (now : ℕ) (db : AlertDb V D) (id' : ℕ)
      → status_at (set_status id from to source now db) id'
        ≡ (if id == id' then Option.map (λ _. to) (status_at db id') else status_at db id')
  unfolding get_alert_by_id set_status
  status_at-set_status id from to source now db id' =
      rw
        (find-map (λ r. r.id == id')
          (λ r. if r.id == id then record r { status = to; updated_at = now } else r) db.alerts
          (λ r. ground arith))
        (elim (Option-cases (find (λ r. r.id == id') db.alerts)) [
          | inl e ↦ rw e (ground arith)
          | inr (r, e) ↦ rw e (
              ground (
                arith,
                find_holds (λ x. x.id == id') db.alerts r e,
                eq_iff r.id id',
                eq_iff r.id id,
                eq_iff id id',
              ))
        ])

-- `silenceAlert` on the status of one alert, and `unsilenceAlert`.
abbrev pub silenced_status : AlertStatus → AlertStatus
silenced_status s = silenced

abbrev pub unsilenced_status : AlertStatus → AlertStatus
unsilenced_status silenced = resolved
unsilenced_status active = active
unsilenced_status resolved = resolved

is_silenced-eq : (s : AlertStatus) → is_silenced s ≡ true → s ≡ silenced
is_silenced-eq active h = cc
is_silenced-eq resolved h = cc
is_silenced-eq silenced h = refl

unsilenced_status_idem :
    (s : AlertStatus) → unsilenced_status (unsilenced_status s) ≡ unsilenced_status s
unsilenced_status_idem active = refl
unsilenced_status_idem resolved = refl
unsilenced_status_idem silenced = refl

module _ {V D : Type 0} (now : ℕ) where
  -- A user action on one alert does `f` to its status, and leaves the other alerts.
  abbrev pub Acts : (AlertStatus → AlertStatus) → ℕ → AlertDb V D → AlertDb V D → Type 0
  Acts f id db db' =
      (id' : ℕ)
      → status_at db' id'
        ≡ (if id == id' then Option.map f (status_at db id') else status_at db id')

  silence_alert-Acts :
      (id : ℕ) (db : AlertDb V D) → Acts silenced_status id db (silence_alert now id db).0
  unfolding silence_alert
  silence_alert-Acts id db id' = elim (Option-cases (get_alert_by_id db id)) [
    | inl e ↦ rw (e, silence_alert) (ground (arith, eq_iff id id', e))
    | inr (r, e) ↦
        rw (e, silence_alert)
          (ground (
            arith,
            eq_iff id id',
            status_at-set_status id r.status silenced user_action now db id',
          ))
  ]

  unsilence_alert-Acts :
      (id : ℕ) (db : AlertDb V D) → Acts unsilenced_status id db (unsilence_alert now id db).0
  unfolding unsilence_alert
  unsilence_alert-Acts id db id' = elim (Option-cases (get_alert_by_id db id)) [
    | inl e ↦ rw (e, unsilence_alert) (ground (arith, eq_iff id id', e))
    | inr (r, e) ↦
        rw (e, unsilence_alert)
          (ground (
            arith,
            eq_iff id id',
            status_at-set_status id silenced resolved user_action now db id',
          ))
  ]

  pub silence_alert-IsValid :
      (id : ℕ) (db : AlertDb V D) → IsValid db → IsValid (silence_alert now id db).0
  unfolding silence_alert
  silence_alert-IsValid id db v = elim (Option-cases (get_alert_by_id db id)) [
    | inl e ↦ rw (e, silence_alert) v
    | inr (r, e) ↦ elim (Bool-cases (is_silenced r.status)) [
      | inl t ↦ rw (e, silence_alert) (rw t v)
      | inr f ↦
          rw (e, silence_alert)
            (rw f (set_status-IsValid id r.status silenced user_action now db r e refl v))
    ]
  ]

  pub unsilence_alert-IsValid :
      (id : ℕ) (db : AlertDb V D) → IsValid db → IsValid (unsilence_alert now id db).0
  unfolding unsilence_alert
  unsilence_alert-IsValid id db v = elim (Option-cases (get_alert_by_id db id)) [
    | inl e ↦ rw (e, unsilence_alert) v
    | inr (r, e) ↦ elim (Bool-cases (is_silenced r.status)) [
      | inl t ↦
          rw (e, unsilence_alert)
            (rw t (
              set_status-IsValid id silenced resolved user_action now db r e
                (is_silenced-eq r.status t) v))
      | inr f ↦ rw (e, unsilence_alert) (rw f v)
    ]
  ]

  -- The batch over an operation that does `f`, which done twice is `f`, does `f` to every alert
  -- of the batch and nothing to the others.
  module _ (f : AlertStatus → AlertStatus)
      (one : ℕ → AlertDb V D → AlertDb V D × Option (AlertStateChange V D))
      (acts : (id : ℕ) (db : AlertDb V D) → Acts f id db (one id db).0)
      (idem : (s : AlertStatus) → f (f s) ≡ f s) where
    batch-Acts :
        (ids : List ℕ) (w : Work V D) (id' : ℕ)
        → status_at (batch now one ids w).db id' ≡ (
            if any (λ id. id == id') ids
            then Option.map f (status_at w.db id')
            else status_at w.db id')
    unfolding batch
    batch-Acts [] w id' = refl
    batch-Acts (id ∷ ids) w id' =
        batch-Acts ids
          (record { db = (one id w.db).0; changes = push_change now w.changes (one id w.db).1 }) id'
        ∙ step (status_at w.db id') (acts id w.db id')
      where
        step :
            (o : Option AlertStatus)
            → status_at (one id w.db).0 id' ≡ (if id == id' then Option.map f o else o)
            → (if any (λ i. i == id') ids
                then Option.map f (status_at (one id w.db).0 id')
                else status_at (one id w.db).0 id')
              ≡ (if id == id' || any (λ i. i == id') ids then Option.map f o else o)
        step none e = rw e (ground arith)
        step (some s) e = rw e (ground (arith, idem s))

  -- A batch of alerts is silenced: each listed alert that exists ends up silenced, whatever its status
  -- was, and no other alert changes its status.
  pub batch_silence_alerts-lem :
      (ids : List ℕ) (db : AlertDb V D) (id' : ℕ)
      → status_at (batch_silence_alerts now ids db).db id' ≡ (
          if any (λ id. id == id') ids
          then Option.map silenced_status (status_at db id')
          else status_at db id')
  unfolding batch_silence_alerts
  batch_silence_alerts-lem ids db id' =
      batch-Acts silenced_status (silence_alert now) silence_alert-Acts (λ s. refl) ids
        (record { db = db; changes = [] }) id'

  -- A batch of alerts is unsilenced: each listed alert that is silenced ends up resolved, and no other
  -- alert changes its status, a listed one that is active or resolved included.
  pub batch_unsilence_alerts-lem :
      (ids : List ℕ) (db : AlertDb V D) (id' : ℕ)
      → status_at (batch_unsilence_alerts now ids db).db id' ≡ (
          if any (λ id. id == id') ids
          then Option.map unsilenced_status (status_at db id')
          else status_at db id')
  unfolding batch_unsilence_alerts
  batch_unsilence_alerts-lem ids db id' =
      batch-Acts unsilenced_status (unsilence_alert now) unsilence_alert-Acts unsilenced_status_idem
        ids (record { db = db; changes = [] }) id'
