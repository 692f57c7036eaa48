-- ===== src/Detectors/Idleness.antt =====
-- Idle memory is reported only after its time: `detectGpuIdle` of server/core/src/alert/detectors.ts.
use pmeow.Prelude.{
  ℕ, ◌+◌, ◌*◌, String, Bool, true, false, not, ◌||◌, List, [], ◌∷◌, some, ◌==◌, string_eq, leb, ltb,
  ◌≡◌, refl, arith, inl, inr, Bool-cases, Option-cases, All, All-select, any, map_get, map_set,
  map_delete,
}
use pmeow.Detectors.GpuIdle.{
  IdleCard, IdleStore, IdleSettings, Measure, GpuProcess, TrackedProcess, Sweep, track_found,
  track_all, store_key, prune_by_prefix, starts_with, gpu_prefix, sweep_card, sweep_cards,
  detect_gpu_idle, collect_gpu_processes, is_busy, none_left, drop_unseen, previous_keys,
}

-- A report of a server at a time, in milliseconds, under the settings of that time.
pub record Visit (V : Type 0) : Type 0 where
  pub server_id : String
  pub settings : IdleSettings V
  pub now : ℕ
  pub cards : List (IdleCard V)

-- The store after a series of reports, of any servers.
unfoldable pub idle_after : {V : Type 0} → Measure V → List (Visit V) → IdleStore V → IdleStore V
unfolding detect_gpu_idle
idle_after m [] store = store
idle_after m (v ∷ rest) store =
    idle_after m rest (detect_gpu_idle m v.server_id v.settings v.now v.cards store).0

module _ {V : Type 0} (since : ℕ) where
  -- Every tracked process was first seen no earlier than `since`.
  abbrev TrackedSince : List (String × TrackedProcess V) → Type 0
  TrackedSince tracked = All (λ e. leb since e.1.first_seen_at ≡ true) tracked

  since-map_get :
      (key : String) (tracked : List (String × TrackedProcess V)) (t : TrackedProcess V)
      → TrackedSince tracked
      → map_get key tracked ≡ some t
      → leb since t.first_seen_at ≡ true
  since-map_get key [] t h e = cc
  since-map_get key (x ∷ xs) t (h, hs) e = ground (arith, h, since-map_get key xs t hs)

  since-map_set :
      (key : String) (t : TrackedProcess V) (tracked : List (String × TrackedProcess V))
      → leb since t.first_seen_at ≡ true
      → TrackedSince tracked
      → TrackedSince (map_set key t tracked)
  since-map_set key t [] k h = (k, tt)
  since-map_set key t (x ∷ xs) k (h, hs) = elim (Bool-cases (x.0 == key)) [
    | inl e ↦ rw e (k, hs)
    | inr e ↦ rw e (h, since-map_set key t xs k hs)
  ]

module _ {V : Type 0} (m : Measure V) (sid : String) (settings : IdleSettings V)
    (since now : ℕ) where
  since-drop_unseen :
      (seen old : List String) (tracked : List (String × TrackedProcess V))
      → TrackedSince since tracked
      → TrackedSince since (drop_unseen m sid settings now seen old tracked)
  unfolding drop_unseen
  since-drop_unseen seen [] tracked h = h
  since-drop_unseen seen (k ∷ rest) tracked h = elim (Bool-cases (any (λ s. s == k) seen)) [
    | inl e ↦ rw e (since-drop_unseen seen rest tracked h)
    | inr e ↦ rw e (
        since-drop_unseen seen rest (map_delete k tracked)
          (All-select (λ e. leb since e.1.first_seen_at ≡ true) (λ e. not (e.0 == k)) tracked h))
  ]

  -- The report is less than the duration after `since`.
  abbrev is_early : Bool
  is_early = ltb now (since + settings.alert_gpu_idle_duration_seconds * 1000)

  -- What stays true of the loops: what is tracked was first seen after `since`, and an early report
  -- has found nothing.
  abbrev Quiet : Sweep V → Type 0
  Quiet w = TrackedSince since w.store.tracked × (is_early ≡ true → w.anomalies ≡ [])

  module _ (later : leb since now ≡ true) where
    track_found-Quiet :
        (index : ℕ) (utilization percent : V) (proc : GpuProcess) (w : Sweep V)
        → Quiet w
        → Quiet (
            track_found m sid settings now index utilization percent proc
              (map_get (store_key m sid settings now index proc.pid) w.store.tracked)
              w)
    unfolding track_found
    track_found-Quiet index utilization percent proc w (h, k) =
        elim (Option-cases
          (map_get (store_key m sid settings now index proc.pid) w.store.tracked)) [
            | inl e ↦
                rw (e, track_found)
                  (
                    since-map_set since (store_key m sid settings now index proc.pid) _
                        w.store.tracked later h,
                    k,
                  )
            | inr (t, e) ↦
                let seen =
                  since-map_get since (store_key m sid settings now index proc.pid) w.store.tracked
                    t h e in
                rw (e, track_found)
                  (
                    since-map_set since (store_key m sid settings now index proc.pid) _
                        w.store.tracked seen h,
                    λ early. rw (not_due t seen early) (k early),
                  )
          ]
      where
        not_due :
            (t : TrackedProcess V)
            → leb since t.first_seen_at ≡ true
            → is_early ≡ true
            → leb (t.first_seen_at + settings.alert_gpu_idle_duration_seconds * 1000) now ≡ false
        not_due t seen early = ground (arith, seen, early)

    track_all-Quiet :
        (index : ℕ) (utilization percent : V) (procs : List GpuProcess) (w : Sweep V)
        → Quiet w
        → Quiet (track_all m sid settings now index utilization percent procs w)
    unfolding track_all
    track_all-Quiet index utilization percent [] w q = q
    track_all-Quiet index utilization percent (proc ∷ rest) w q =
        track_all-Quiet index utilization percent rest _
          (track_found-Quiet index utilization percent proc w q)

    sweep_card-Quiet :
        (gpu : IdleCard V) (w : Sweep V) → Quiet w → Quiet (sweep_card m sid settings now gpu w)
    unfolding sweep_card prune_by_prefix
    sweep_card-Quiet gpu w (h, k) =
        elim (Bool-cases (
          is_busy m sid settings now gpu
          || none_left m sid settings now (collect_gpu_processes gpu))) [
            | inl t ↦ rw t (
              All-select (λ e. leb since e.1.first_seen_at ≡ true)
                  (λ e. not (starts_with (gpu_prefix m sid settings now gpu.index) e.0))
                  w.store.tracked h,
              k,
            )
            | inr f ↦ rw f (track_all-Quiet gpu.index _ _ (collect_gpu_processes gpu) w (h, k))
          ]

    sweep_cards-Quiet :
        (cards : List (IdleCard V)) (w : Sweep V)
        → Quiet w
        → Quiet (sweep_cards m sid settings now cards w)
    unfolding sweep_cards
    sweep_cards-Quiet [] w q = q
    sweep_cards-Quiet (gpu ∷ rest) w q = sweep_cards-Quiet rest _ (sweep_card-Quiet gpu w q)

    -- One report.
    detect_gpu_idle-Quiet :
        (cards : List (IdleCard V)) (store : IdleStore V)
        → TrackedSince since store.tracked
        → TrackedSince since (detect_gpu_idle m sid settings now cards store).0.tracked
          × (is_early ≡ true → (detect_gpu_idle m sid settings now cards store).1 ≡ [])
    unfolding detect_gpu_idle
    detect_gpu_idle-Quiet cards store h =
        let swept =
          sweep_cards m sid settings now cards
            (record { store = store; seen = []; anomalies = [] }) in
        let (tracked, quiet) =
          sweep_cards-Quiet cards (record { store = store; seen = []; anomalies = [] })
            (h, λ e. refl) in
        (
          since-drop_unseen swept.seen (previous_keys m sid settings now swept.store)
              swept.store.tracked tracked,
          quiet,
        )

module _ {V : Type 0} (m : Measure V) (since : ℕ) where
  idle_after-TrackedSince :
      (visits : List (Visit V)) (store : IdleStore V)
      → All (λ v. leb since v.now ≡ true) visits
      → TrackedSince since store.tracked
      → TrackedSince since (idle_after m visits store).tracked
  unfolding idle_after
  idle_after-TrackedSince [] store l h = h
  idle_after-TrackedSince (v ∷ rest) store (l, ls) h =
      idle_after-TrackedSince rest _ ls
        (detect_gpu_idle-Quiet m v.server_id v.settings since v.now l v.cards store h).0

  -- From a store that tracks no process, after any series of reports none of which is before a
  -- given time, a report that is less than the configured duration after that time, and not before
  -- it, raises no anomaly about idle GPU memory.
  pub detect_gpu_idle-young :
      (visits : List (Visit V)) (keys : List (String × List String)) (last : Visit V)
      → All (λ v. leb since v.now ≡ true) visits
      → leb since last.now ≡ true
      → ltb last.now (since + last.settings.alert_gpu_idle_duration_seconds * 1000) ≡ true
      → (detect_gpu_idle m last.server_id last.settings last.now last.cards
          (idle_after m visits (record { tracked = []; keys = keys }))).1
        ≡ []
  detect_gpu_idle-young visits keys last ls l early =
      (detect_gpu_idle-Quiet m last.server_id last.settings since last.now l last.cards _
          (idle_after-TrackedSince visits (record { tracked = []; keys = keys }) ls tt)).1
        early
