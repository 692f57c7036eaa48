-- ===== src/Snapshots/Scheduler.antt =====
-- When a report is stored as a snapshot: server/core/src/ingest/snapshot-scheduler.ts, and the last step
-- of `processReport` in server/core/src/ingest/pipeline.ts.
use pmeow.Prelude.{
  ℕ, ◌+◌, ◌*◌, String, Bool, List, Option, none, some, ◌==◌, string_eq, eq_iff, if◌then◌else◌, leb,
  map_get, map_set, map_get-map_set, ◌≡◌, arith,
}
use pmeow.Snapshots.Store.{SnapshotDb, recent, archive, save_snapshot, delete_old_recent_snapshots}

pub record SnapshotScheduler : Type 0 where
  pub last_recent_at : List (String × ℕ)
  pub last_archive_at : List (String × ℕ)

abbrev pub or_zero : Option ℕ → ℕ
or_zero none = 0
or_zero (some t) = t

-- The test `now - last >= interval * 1000`, as a sum.
unfoldable pub is_due : List (String × ℕ) → String → ℕ → ℕ → Bool
is_due last_at sid now interval_seconds =
    leb (or_zero (map_get sid last_at) + interval_seconds * 1000) now

unfoldable pub should_write_recent : String → ℕ → ℕ → SnapshotScheduler → Bool
unfolding is_due
should_write_recent sid now interval s = is_due s.last_recent_at sid now interval

unfoldable pub should_write_archive : String → ℕ → ℕ → SnapshotScheduler → Bool
unfolding is_due
should_write_archive sid now interval s = is_due s.last_archive_at sid now interval

unfoldable pub mark_recent_written : String → ℕ → SnapshotScheduler → SnapshotScheduler
mark_recent_written sid now s = record s { last_recent_at = map_set sid now s.last_recent_at }

unfoldable pub mark_archive_written : String → ℕ → SnapshotScheduler → SnapshotScheduler
mark_archive_written sid now s = record s { last_archive_at = map_set sid now s.last_archive_at }

pub record SnapshotSettings : Type 0 where
  pub snapshot_recent_interval_seconds : ℕ
  pub snapshot_archive_interval_seconds : ℕ
  pub snapshot_recent_keep_count : ℕ

-- What of a report is stored.
pub record StoredReport (R G : Type 0) : Type 0 where
  pub timestamp : ℕ
  pub seq : ℕ
  pub resources : R
  pub cards : List G

module _ {R G : Type 0} (now : ℕ) (sid : String) (settings : SnapshotSettings)
    (report : StoredReport R G) where
  unfoldable pub write_recent :
      SnapshotScheduler × SnapshotDb R G → SnapshotScheduler × SnapshotDb R G
  unfolding should_write_recent mark_recent_written save_snapshot delete_old_recent_snapshots
  write_recent (s, db) =
      if should_write_recent sid now settings.snapshot_recent_interval_seconds s
      then (
        mark_recent_written sid now s,
        delete_old_recent_snapshots sid settings.snapshot_recent_keep_count
            (save_snapshot sid report.timestamp report.resources report.cards recent
              (some report.seq) db).0,
      )
      else (s, db)

  unfoldable pub write_archive :
      SnapshotScheduler × SnapshotDb R G → SnapshotScheduler × SnapshotDb R G
  unfolding should_write_archive mark_archive_written save_snapshot
  write_archive (s, db) =
      if should_write_archive sid now settings.snapshot_archive_interval_seconds s
      then (
        mark_archive_written sid now s,
        (save_snapshot sid report.timestamp report.resources report.cards archive (some report.seq)
            db).0,
      )
      else (s, db)

  unfoldable pub store_report :
      SnapshotScheduler × SnapshotDb R G → SnapshotScheduler × SnapshotDb R G
  unfolding write_recent write_archive
  store_report state = write_archive (write_recent state)

-- After a report has been handled at `now`, the next recent snapshot of the server is due exactly from
-- the interval after the last one that was written on: after `now` where one was due then, and
-- otherwise as it was before. What is due for other servers does not change.
pub should_write_recent-store_report :
    {R G : Type 0} (now later : ℕ) (sid other : String) (settings : SnapshotSettings)
    (report : StoredReport R G) (s : SnapshotScheduler) (db : SnapshotDb R G) (interval : ℕ)
    → should_write_recent other later interval (store_report now sid settings report (s, db)).0 ≡ (
        if sid == other
        then if should_write_recent sid now settings.snapshot_recent_interval_seconds s
          then leb (now + interval * 1000) later
          else should_write_recent sid later interval s
        else should_write_recent other later interval s)
unfolding store_report write_recent write_archive should_write_recent should_write_archive is_due
    mark_recent_written mark_archive_written
should_write_recent-store_report now later sid other settings report s db interval =
    ground (arith, eq_iff sid other, map_get-map_set sid other now s.last_recent_at)
