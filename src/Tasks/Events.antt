-- ===== src/Tasks/Events.antt =====
-- Which events `diffTasks` makes (server/core/src/task/differ.ts), told task by task.
use pmeow.Prelude.{
  ℕ, String, Bool, true, false, not, ◌&&◌, ◌||◌, List, [], ◌∷◌, ◌++◌, Option, none, some, ◌==◌,
  string_eq, eq_iff, if◌then◌else◌, ◌≡◌, refl, arith, ap, ◌∙◌, map_get, map_set, map_has, any,
  map_has-map_set, map_get-map_set, map_has-map_get, or_else,
}
use pmeow.Tasks.Types.{TaskInfo, is_running, is_queued}
use pmeow.Tasks.Differ.{
  TaskEventType, submitted, started, ended, TaskDiffResult, fill_tasks, map_of_tasks, compare_task,
  active_events, ended_events, gone_events, diff_tasks,
}

abbrev pub is_kind : TaskEventType → TaskEventType → Bool
is_kind submitted submitted = true
is_kind started started = true
is_kind ended ended = true
is_kind _ _ = false

-- Some event of the list has this kind and is about this task.
abbrev pub reports : TaskEventType → String → List TaskDiffResult → Bool
reports kind id es = any (λ e. is_kind kind e.event_type && e.task.task_id == id) es

-- Some task of the list has this id.
abbrev pub has_task : String → List TaskInfo → Bool
has_task id ts = any (λ t. t.task_id == id) ts

reports-append :
    (kind : TaskEventType) (id : String) (xs ys : List TaskDiffResult)
    → reports kind id (xs ++ ys) ≡ (reports kind id xs || reports kind id ys)
reports-append kind id [] ys = refl
reports-append kind id (x ∷ xs) ys = ground (arith, reports-append kind id xs ys)

map_has-fill_tasks :
    (id : String) (m : List (String × TaskInfo)) (ts : List TaskInfo)
    → map_has id (fill_tasks m ts) ≡ (map_has id m || has_task id ts)
unfolding fill_tasks
map_has-fill_tasks id m [] = ground arith
map_has-fill_tasks id m (t ∷ ts) =
    map_has-fill_tasks id (map_set t.task_id t m) ts
    ∙ ground (arith, map_has-map_set t.task_id id t m)

-- The last task of the list with this id, which is the one that a `Map` keeps.
abbrev pub latest : String → List TaskInfo → Option TaskInfo
latest id [] = none
latest id (t ∷ ts) = or_else (latest id ts) (if t.task_id == id then some t else none)

map_get-fill_tasks :
    (id : String) (m : List (String × TaskInfo)) (ts : List TaskInfo)
    → map_get id (fill_tasks m ts) ≡ or_else (latest id ts) (map_get id m)
unfolding fill_tasks
map_get-fill_tasks id m [] = refl
map_get-fill_tasks id m (t ∷ ts) =
    map_get-fill_tasks id (map_set t.task_id t m) ts
    ∙ ground (arith, map_get-map_set t.task_id id t m)

-- A running task has just started if it was not there before, or was queued.
abbrev pub may_start : Option TaskInfo → Bool
may_start none = true
may_start (some p) = is_queued p.status

module _ (sid : String) (id : String) where
  reports_submitted-active :
      (m : List (String × TaskInfo)) (ts : List TaskInfo)
      → reports submitted id (active_events sid m ts) ≡ (has_task id ts && not (map_has id m))
  unfolding active_events compare_task
  reports_submitted-active m [] = refl
  reports_submitted-active m (t ∷ ts) =
      reports-append submitted id (compare_task sid (map_get t.task_id m) t)
        (active_events sid m ts)
      ∙ ground (arith, reports_submitted-active m ts, map_has-map_get id m, eq_iff t.task_id id)

  reports_started-active :
      (m : List (String × TaskInfo)) (ts : List TaskInfo)
      → reports started id (active_events sid m ts)
        ≡ any (λ t. t.task_id == id && (is_running t.status && may_start (map_get id m))) ts
  unfolding active_events compare_task
  reports_started-active m [] = refl
  reports_started-active m (t ∷ ts) =
      reports-append started id (compare_task sid (map_get t.task_id m) t) (active_events sid m ts)
      ∙ ground (arith, reports_started-active m ts, eq_iff t.task_id id)

  reports_ended-active :
      (m : List (String × TaskInfo)) (ts : List TaskInfo)
      → reports ended id (active_events sid m ts) ≡ false
  unfolding active_events compare_task
  reports_ended-active m [] = refl
  reports_ended-active m (t ∷ ts) =
      reports-append ended id (compare_task sid (map_get t.task_id m) t) (active_events sid m ts)
      ∙ ground (arith, reports_ended-active m ts)

  reports-ended :
      (kind : TaskEventType) (ts : List TaskInfo)
      → reports kind id (ended_events sid ts) ≡ (is_kind kind ended && has_task id ts)
  unfolding ended_events
  reports-ended kind [] = ground arith
  reports-ended kind (t ∷ ts) = ground (arith, reports-ended kind ts)

  reports-gone :
      (kind : TaskEventType) (now : ℕ) (c e : List (String × TaskInfo)) (ts : List TaskInfo)
      → reports kind id (gone_events sid now c e ts)
        ≡ (is_kind kind ended && (has_task id ts && (not (map_has id c) && not (map_has id e))))
  unfolding gone_events
  reports-gone kind now c e [] = ground arith
  reports-gone kind now c e (t ∷ ts) =
      ground (arith, reports-gone kind now c e ts, eq_iff t.task_id id)

  module _ (now : ℕ) (previous current recently_ended : List TaskInfo) where
    split :
        (kind : TaskEventType)
        → reports kind id (diff_tasks sid now previous current recently_ended) ≡ (
            reports kind id (active_events sid (map_of_tasks previous) current)
            || (reports kind id (ended_events sid recently_ended)
                || reports kind id (
                    gone_events sid now
                      (map_of_tasks current)
                      (map_of_tasks recently_ended)
                      previous)))
    unfolding diff_tasks
    split kind =
        reports-append kind id (active_events sid (map_of_tasks previous) current) _
        ∙ ap (λ b. reports kind id (active_events sid (map_of_tasks previous) current) || b)
            (reports-append kind id (ended_events sid recently_ended) _)

    -- A task is reported as submitted exactly when it is active now and was not before.
    diff_tasks-submitted :
        reports submitted id (diff_tasks sid now previous current recently_ended)
        ≡ (has_task id current && not (has_task id previous))
    diff_tasks-submitted =
        split submitted
        ∙ ground (
          arith,
          reports_submitted-active (map_of_tasks previous) current,
          reports-ended submitted recently_ended,
          reports-gone submitted now (map_of_tasks current) (map_of_tasks recently_ended) previous,
          map_has-fill_tasks id [] previous,
        )

    -- A task is reported as started exactly when it runs now and before was queued or not there.
    diff_tasks-started :
        reports started id (diff_tasks sid now previous current recently_ended)
        ≡ any
            (λ t. t.task_id == id && (is_running t.status && may_start (latest id previous)))
            current
    diff_tasks-started =
        split started
        ∙ ground (
          arith,
          reports_started-active (map_of_tasks previous) current,
          reports-ended started recently_ended,
          reports-gone started now (map_of_tasks current) (map_of_tasks recently_ended) previous,
          map_get-fill_tasks id [] previous,
        )

    -- A task is reported as ended exactly when the agent reports its end, or when it was active before
    -- and is now neither active nor reported as ended.
    pub diff_tasks-ended : reports ended id (diff_tasks sid now previous current recently_ended) ≡ (
        has_task id recently_ended
        || (has_task id previous
            && (not (has_task id current) && not (has_task id recently_ended))))
    diff_tasks-ended =
        split ended
        ∙ ground (
          arith,
          reports_ended-active (map_of_tasks previous) current,
          reports-ended ended recently_ended,
          reports-gone ended now (map_of_tasks current) (map_of_tasks recently_ended) previous,
          map_has-fill_tasks id [] current,
          map_has-fill_tasks id [] recently_ended,
        )

    -- A task is reported as submitted exactly when it is active now and was not before, as started
    -- exactly when it runs now and before was queued or not there, and as ended exactly when the
    -- agent lists its end, or when it was active before and is now neither active nor listed as
    -- ended.
    pub diff_tasks-events :
        (reports submitted id (diff_tasks sid now previous current recently_ended)
          ≡ (has_task id current && not (has_task id previous)))
        × (reports started id (diff_tasks sid now previous current recently_ended)
            ≡ any
                (λ t. t.task_id == id && (is_running t.status && may_start (latest id previous)))
                current)
        × (reports ended id (diff_tasks sid now previous current recently_ended) ≡ (
            has_task id recently_ended
            || (has_task id previous
                && (not (has_task id current) && not (has_task id recently_ended)))))
    diff_tasks-events = (diff_tasks-submitted, diff_tasks-started, diff_tasks-ended)
