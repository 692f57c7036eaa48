-- ===== src/Snapshots/Examples.antt =====
-- Retention and the scheduler at concrete tables.
use pmeow.Prelude.{
  ℕ, ◌≤◌, ◌*◌, String, true, not, [], ◌∷◌, none, ◌≡◌, length, select, string_eq, nat_eq,
}
use pmeow.Snapshots.Store.{
  SnapshotRow, SnapshotDb, Tier, recent, archive, is_recent_of, delete_old_recent_snapshots,
}
use pmeow.Snapshots.Retention.{delete_old_recent_snapshots-bounds}
use pmeow.Snapshots.Scheduler.{
  SnapshotSettings, StoredReport, should_write_recent, store_report,
  should_write_recent-store_report,
}

abbrev row : ℕ → Tier → SnapshotRow String
row id tier = record {
  id = id;
  server_id = "s";
  timestamp = id * 10;
  tier = tier;
  seq = none;
  resources = "{}";
}

abbrev four_rows : SnapshotDb String ℕ
four_rows = record {
  snapshots = row 1 recent ∷ row 2 archive ∷ row 3 recent ∷ row 4 recent ∷ [];
  next_id = 5;
  gpu_snapshots = [];
  next_gpu_id = 1;
}

delete_old_recent_snapshots-bounds_example :
    (length (select (is_recent_of "s") (delete_old_recent_snapshots "s" 2 four_rows).snapshots) ≤ 2)
    × (select
          (λ r. not (is_recent_of "s" r))
          (delete_old_recent_snapshots "s" 2 four_rows).snapshots
        ≡ row 2 archive ∷ [])
delete_old_recent_snapshots-bounds_example = delete_old_recent_snapshots-bounds "s" 2 four_rows (
  ((λ e. cc), ((λ e. cc), ((λ e. cc), tt))),
  (((λ e. cc), ((λ e. cc), tt)), (((λ e. cc), tt), (tt, tt))),
)

abbrev every_minute : SnapshotSettings
every_minute = record {
  snapshot_recent_interval_seconds = 60;
  snapshot_archive_interval_seconds = 1800;
  snapshot_recent_keep_count = 2;
}

abbrev small_report : StoredReport String ℕ
small_report = record { timestamp = 70; seq = 1; resources = "{}"; cards = 7 ∷ [] }

should_write_recent-store_report_example :
    should_write_recent "s" 130000 60
      (store_report 70000 "s" every_minute small_report
        (record { last_recent_at = []; last_archive_at = [] }, four_rows)).0
    ≡ true
unfolding should_write_recent
should_write_recent-store_report_example =
    should_write_recent-store_report 70000 130000 "s" "s" every_minute small_report
      (record { last_recent_at = []; last_archive_at = [] }) four_rows 60
