-- ===== src/Tasks/History.antt =====
-- The tiers of schedule evaluations lose nothing recent: server/core/src/db/tasks.ts.
use pmeow.Prelude.{
  ℕ, ◌+◌, String, Bool, true, false, not, ◌&&◌, ◌||◌, List, [], ◌∷◌, ◌++◌, map, some, string_eq,
  nat_eq, eq_iff, eq_refl, ◌≡◌, refl, arith, ◌∙◌, inl, inr, Bool-cases, leb, any, select,
  update_where, sort, any-sort, any-select,
}
use pmeow.Tasks.Types.{TaskInfo, ScheduleEvaluation}
use pmeow.Tasks.Schedule.{
  Tier, window_5s, archive_15m, same_tier, ScheduleRow, floor_to_bucket, is_bucket,
  upsert_schedule_snapshot, is_stale, store_latest, upsert_task_schedule_snapshot, is_shown,
  get_task_schedule_history, later_first, later_source, or_raw, get_latest_schedule_evaluation,
  window_retention_seconds, archive_seconds, window_seconds,
}

-- Some row of this task and tier holds an evaluation with this property, in this bucket.
abbrev holds : String → Tier → ℕ → (ScheduleEvaluation → Bool) → ScheduleRow → Bool
holds id tier bucket p r = is_bucket id tier bucket r && p r.snapshot

same_tier_refl : (t : Tier) → same_tier t t ≡ true
same_tier_refl window_5s = refl
same_tier_refl archive_15m = refl

any-update :
    (id : String) (tier : Tier) (bucket : ℕ) (p : ScheduleEvaluation → Bool)
    (f : ScheduleRow → ScheduleRow) (rows : List ScheduleRow)
    → ((r : ScheduleRow) → is_bucket id tier bucket r ≡ true → holds id tier bucket p (f r) ≡ true)
    → any (is_bucket id tier bucket) rows ≡ true
    → any (holds id tier bucket p) (update_where (is_bucket id tier bucket) f rows) ≡ true
any-update id tier bucket p f [] keep h = cc
any-update id tier bucket p f (r ∷ rows) keep h = elim (Bool-cases (is_bucket id tier bucket r)) [
  | inl t ↦ rw t (rw (keep r t))
  | inr n ↦ rw n (ground (arith, any-update id tier bucket p f rows keep))
]

any-append_one :
    (p : ScheduleRow → Bool) (rows : List ScheduleRow) (r : ScheduleRow)
    → any p (rows ++ r ∷ []) ≡ (any p rows || p r)
any-append_one p [] r = ground arith
any-append_one p (x ∷ rows) r = ground (arith, any-append_one p rows r)

-- After an upsert the bucket holds the snapshot.
upsert-holds :
    (id sid : String) (tier : Tier) (bucket : ℕ) (e : ScheduleEvaluation) (now : ℕ)
    (rows : List ScheduleRow) (p : ScheduleEvaluation → Bool)
    → p e ≡ true
    → any (holds id tier bucket p) (upsert_schedule_snapshot id sid tier bucket e now rows) ≡ true
unfolding upsert_schedule_snapshot
upsert-holds id sid tier bucket e now rows p h =
    elim (Bool-cases (any (is_bucket id tier bucket) rows)) [
      | inl t ↦ rw t (any-update id tier bucket p _ rows (λ r k. ground arith) t)
      | inr f ↦ rw f (
          rw (any-append_one (holds id tier bucket p) rows)
            (ground (arith, eq_refl id, eq_refl bucket, same_tier_refl tier)))
    ]

any_mono :
    (p q : ScheduleRow → Bool) (rows : List ScheduleRow)
    → ((r : ScheduleRow) → p r ≡ true → q r ≡ true)
    → any p rows ≡ true
    → any q rows ≡ true
any_mono p q [] f h = cc
any_mono p q (r ∷ rows) f h = ground (arith, any_mono p q rows f, f r)

-- A write to the window leaves the archive.
window-keeps :
    (id sid : String) (bucket bucket' : ℕ) (e : ScheduleEvaluation) (now : ℕ)
    (p : ScheduleEvaluation → Bool) (rows : List ScheduleRow)
    → any (holds id archive_15m bucket' p) rows ≡ true
    → any
        (holds id archive_15m bucket' p)
        (upsert_schedule_snapshot id sid window_5s bucket e now rows)
      ≡ true
unfolding upsert_schedule_snapshot
window-keeps id sid bucket bucket' e now p rows h =
    elim (Bool-cases (any (is_bucket id window_5s bucket) rows)) [
      | inl t ↦ rw t (kept rows h)
      | inr f ↦ rw f (rw (any-append_one (holds id archive_15m bucket' p) rows) (rw h))
    ]
  where
    kept :
        (xs : List ScheduleRow)
        → any (holds id archive_15m bucket' p) xs ≡ true
        → any (holds id archive_15m bucket' p) (
            update_where
              (is_bucket id window_5s bucket)
              (λ r. record r {
                server_id = sid;
                source_timestamp = e.timestamp;
                snapshot = e;
                updated_at = now;
              })
              xs)
          ≡ true
    kept [] k = cc
    kept (x ∷ xs) k = ground (arith, kept xs)

any-snapshots :
    (p : ScheduleEvaluation → Bool) (rows : List ScheduleRow)
    → any p (map (λ r. r.snapshot) rows) ≡ any (λ r. p r.snapshot) rows
any-snapshots p [] = refl
any-snapshots p (r ∷ rows) = ground (arith, any-snapshots p rows)

any-or_raw :
    (p : ScheduleEvaluation → Bool) (raw : List ScheduleEvaluation) (rows : List ScheduleRow)
    → any (λ r. p r.snapshot) rows ≡ true
    → any p (or_raw rows raw) ≡ true
any-or_raw p raw [] h = cc
any-or_raw p raw (r ∷ rows) h =
    any-sort later_first p (map (λ x. x.snapshot) (r ∷ rows)) ∙ any-snapshots p (r ∷ rows) ∙ h

module _ (sid id : String) (e : ScheduleEvaluation) (now : ℕ) (p : ScheduleEvaluation → Bool)
    (h : p e ≡ true) where
  abbrev seen : ScheduleRow → Bool
  seen r = is_shown id now r && p r.snapshot

  abbrev kept_and_seen : ScheduleRow → Bool
  kept_and_seen r = not (is_stale id now r) && seen r

  abbrev window_bucket : ℕ
  window_bucket = floor_to_bucket e.timestamp window_seconds

  abbrev archive_bucket : ℕ
  archive_bucket = floor_to_bucket e.timestamp archive_seconds

  from_window :
      (rows : List ScheduleRow)
      → leb now (window_bucket + window_retention_seconds) ≡ true
      → any (holds id window_5s window_bucket p) rows ≡ true
      → any kept_and_seen rows ≡ true
  from_window rows inside k =
      any_mono (holds id window_5s window_bucket p) kept_and_seen rows
        (λ r m. ground (arith, eq_iff r.bucket_start window_bucket)) k

  from_archive :
      (rows : List ScheduleRow)
      → leb now (archive_bucket + window_retention_seconds) ≡ false
      → any (holds id archive_15m archive_bucket p) rows ≡ true
      → any kept_and_seen rows ≡ true
  from_archive rows outside k =
      any_mono (holds id archive_15m archive_bucket p) kept_and_seen rows
        (λ r m. ground (arith, eq_iff r.bucket_start archive_bucket)) k

  archive-le-window :
      leb now (window_bucket + window_retention_seconds) ≡ false
      → leb now (archive_bucket + window_retention_seconds) ≡ false
  archive-le-window k = ground arith

  window-le-time :
      leb now (e.timestamp + window_retention_seconds) ≡ false
      → leb now (archive_bucket + window_retention_seconds) ≡ false
  window-le-time k = ground arith

  pub store_latest-shown :
      (rows : List ScheduleRow) → any seen (store_latest sid id e now rows) ≡ true
  unfolding store_latest
  store_latest-shown rows =
      let archived = upsert_schedule_snapshot id sid archive_15m archive_bucket e now rows in
      let windowed = upsert_schedule_snapshot id sid window_5s window_bucket e now archived in
      let in_archive = upsert-holds id sid archive_15m archive_bucket e now rows p h in
      elim (Bool-cases (leb now (e.timestamp + window_retention_seconds))) [
        | inl recent ↦ rw recent (
            any-select seen (λ r. not (is_stale id now r)) windowed
            ∙ (elim (Bool-cases (leb now (window_bucket + window_retention_seconds))) [
              | inl inside ↦
                  from_window windowed inside
                    (upsert-holds id sid window_5s window_bucket e now archived p h)
              | inr outside ↦
                  from_archive windowed (archive-le-window outside)
                    (window-keeps id sid window_bucket archive_bucket e now p archived in_archive)
            ]))
        | inr old ↦ rw old (
            any-select seen (λ r. not (is_stale id now r)) archived
            ∙ from_archive archived (window-le-time old) in_archive)
      ]

-- The latest evaluation of a task, once stored, is in the history that is read at the same time: the
-- window shows it, or the archive does where the window's bucket has already left.
pub get_task_schedule_history-latest :
    (sid : String) (task : TaskInfo) (now : ℕ) (raw : List ScheduleEvaluation)
    (rows : List ScheduleRow) (e : ScheduleEvaluation) (p : ScheduleEvaluation → Bool)
    → get_latest_schedule_evaluation task.schedule_history ≡ some e
    → p e ≡ true
    → any p (
        get_task_schedule_history task.task_id raw now
          (upsert_task_schedule_snapshot sid task now rows))
      ≡ true
unfolding upsert_task_schedule_snapshot get_task_schedule_history
get_task_schedule_history-latest sid task now raw rows e p latest h =
    let stored = store_latest sid task.task_id e now rows in
    let shown = select (is_shown task.task_id now) stored in
    rw (latest, upsert_task_schedule_snapshot)
      (any-or_raw p raw (sort later_source shown) (
        any-sort later_source (λ r. p r.snapshot) shown
        ∙ any-select (λ r. p r.snapshot) (is_shown task.task_id now) stored
        ∙ store_latest-shown sid task.task_id e now p h rows))
