-- ===== src/Tasks/Schedule.antt =====
-- The two tiers of schedule evaluations: `upsertTaskScheduleSnapshot` and `getTaskScheduleHistory` of
-- server/core/src/db/tasks.ts. Comparisons with a time in the past are written as sums.
use pmeow.Prelude.{
  ℕ, ◌+◌, ◌*◌, ◌/◌, String, Bool, true, false, not, ◌&&◌, ◌||◌, List, [], ◌∷◌, ◌++◌, map, Option,
  none, some, ◌==◌, string_eq, nat_eq, if◌then◌else◌, leb, ltb, any, select, update_where, sort,
}
use pmeow.Tasks.Types.{TaskInfo, ScheduleEvaluation}

pub data Tier : Type 0 where
  window_5s archive_15m : Tier

abbrev pub is_window : Tier → Bool
is_window window_5s = true
is_window archive_15m = false

abbrev pub same_tier : Tier → Tier → Bool
same_tier window_5s t = is_window t
same_tier archive_15m t = not (is_window t)

abbrev pub window_seconds : ℕ
window_seconds = 5

abbrev pub window_retention_seconds : ℕ
window_retention_seconds = 300

abbrev pub archive_seconds : ℕ
archive_seconds = 900

pub record ScheduleRow : Type 0 where
  pub task_id : String
  pub server_id : String
  pub tier : Tier
  pub bucket_start : ℕ
  pub source_timestamp : ℕ
  pub snapshot : ScheduleEvaluation
  pub updated_at : ℕ

abbrev pub floor_to_bucket : ℕ → ℕ → ℕ
floor_to_bucket timestamp bucket_seconds = (timestamp / bucket_seconds) * bucket_seconds

abbrev pub later_first : ScheduleEvaluation → ScheduleEvaluation → Bool
later_first left right = leb right.timestamp left.timestamp

abbrev pub head_of : List ScheduleEvaluation → Option ScheduleEvaluation
head_of [] = none
head_of (e ∷ es) = some e

unfoldable pub get_latest_schedule_evaluation : List ScheduleEvaluation → Option ScheduleEvaluation
unfolding sort
get_latest_schedule_evaluation history = head_of (sort later_first history)

abbrev pub is_bucket : String → Tier → ℕ → ScheduleRow → Bool
is_bucket id tier bucket r = r.task_id == id && (same_tier tier r.tier && r.bucket_start == bucket)

unfoldable pub upsert_schedule_snapshot :
    String → String → Tier → ℕ → ScheduleEvaluation → ℕ → List ScheduleRow → List ScheduleRow
upsert_schedule_snapshot id sid tier bucket snapshot now rows =
    if any (is_bucket id tier bucket) rows
    then update_where (is_bucket id tier bucket)
        (λ r. record r {
          server_id = sid;
          source_timestamp = snapshot.timestamp;
          snapshot = snapshot;
          updated_at = now;
        })
        rows
    else rows
      ++ record {
        task_id = id;
        server_id = sid;
        tier = tier;
        bucket_start = bucket;
        source_timestamp = snapshot.timestamp;
        snapshot = snapshot;
        updated_at = now;
      }
        ∷ []

-- A row of the window that has left it.
abbrev pub is_stale : String → ℕ → ScheduleRow → Bool
is_stale id now r =
    r.task_id == id && (is_window r.tier && ltb (r.bucket_start + window_retention_seconds) now)

unfoldable pub store_latest :
    String → String → ScheduleEvaluation → ℕ → List ScheduleRow → List ScheduleRow
unfolding upsert_schedule_snapshot
store_latest sid id latest now rows =
    let archived =
      upsert_schedule_snapshot id sid archive_15m (floor_to_bucket latest.timestamp archive_seconds)
        latest now rows in
    let windowed =
      if leb now (latest.timestamp + window_retention_seconds)
      then upsert_schedule_snapshot id sid window_5s
          (floor_to_bucket latest.timestamp window_seconds) latest now archived
      else archived in
    select (λ r. not (is_stale id now r)) windowed

unfoldable pub upsert_task_schedule_snapshot :
    String → TaskInfo → ℕ → List ScheduleRow → List ScheduleRow
unfolding store_latest get_latest_schedule_evaluation
upsert_task_schedule_snapshot sid task now rows =
    elim (get_latest_schedule_evaluation task.schedule_history) [
      | none ↦ rows
      | some latest ↦ store_latest sid task.task_id latest now rows
    ]

-- Recent evaluations from the window, older ones from the archive.
abbrev pub is_shown : String → ℕ → ScheduleRow → Bool
is_shown id now r =
    r.task_id == id
    && ((is_window r.tier && leb now (r.bucket_start + window_retention_seconds))
        || (not (is_window r.tier) && ltb (r.bucket_start + window_retention_seconds) now))

abbrev pub later_source : ScheduleRow → ScheduleRow → Bool
later_source left right = leb right.source_timestamp left.source_timestamp

abbrev pub or_raw : List ScheduleRow → List ScheduleEvaluation → List ScheduleEvaluation
or_raw [] raw_history = raw_history
or_raw (r ∷ rs) raw_history = sort later_first (map (λ x. x.snapshot) (r ∷ rs))

unfoldable pub get_task_schedule_history :
    String → List ScheduleEvaluation → ℕ → List ScheduleRow → List ScheduleEvaluation
unfolding sort
get_task_schedule_history id raw_history now rows =
    or_raw (sort later_source (select (is_shown id now) rows)) raw_history
