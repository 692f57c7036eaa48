-- ===== src/Tasks/Statuses.antt =====
-- What `TaskEngine.processReport` (server/core/src/task/engine.ts) leaves in the table of tasks.
use mathlib.Core.Option
use pmeow.Prelude.{
  ℕ, String, Bool, true, false, not, ◌&&◌, ◌||◌, List, [], ◌∷◌, ◌++◌, Option, none, some, ◌==◌,
  string_eq, eq_iff, if◌then◌else◌, ◌≡◌, refl, arith, ◌∙◌, inl, inr, Bool-cases, Option-cases, any,
  find, find-map, is_some, find-append_one, find_holds, All, All-weaken, map_has, map_get,
}
use pmeow.Tasks.Types.{TaskInfo, TaskStatus, abnormal, is_running, is_queued}
use pmeow.Tasks.Differ.{
  TaskDiffResult, ended, active_events, compare_task, ended_events, gone_events, diff_tasks,
  map_of_tasks,
}
use pmeow.Tasks.Events.{has_task, latest, reports, diff_tasks-ended}
use pmeow.Tasks.Store.{TaskRow, is_row, merge, upsert_task, get_task_by_id}
use pmeow.Tasks.Engine.{
  TaskQueue, TaskDb, Persisted, has_id, is_ended, persist_all, persist_gone, process_report,
  active_tasks, previous_tasks,
}

abbrev pub status_in : String → List TaskRow → Option TaskStatus
status_in id rows = Option.map (λ r. r.info.status) (get_task_by_id id rows)

any-find : (p : TaskRow → Bool) (rows : List TaskRow) → any p rows ≡ false → find p rows ≡ none
any-find p [] h = refl
any-find p (r ∷ rows) h = ground (arith, any-find p rows)

find-any : (p : TaskRow → Bool) (rows : List TaskRow) → find p rows ≡ none → any p rows ≡ false
find-any p [] h = refl
find-any p (r ∷ rows) h = ground (arith, find-any p rows)

status_in-upsert_task :
    (sid id : String) (t : TaskInfo) (rows : List TaskRow)
    → status_in id (upsert_task sid t rows)
      ≡ (if t.task_id == id then some t.status else status_in id rows)
unfolding upsert_task get_task_by_id
status_in-upsert_task sid id t rows = elim (Bool-cases (any (is_row t.task_id) rows)) [
  | inl there ↦ rw there (
      rw
        (find-map (is_row id) (λ r. if is_row t.task_id r then merge sid t r else r) rows
          (λ r. ground arith))
        (elim (Option-cases (find (is_row id) rows)) [
          | inl e ↦ rw e (ground (arith, eq_iff t.task_id id, find-any (is_row id) rows e))
          | inr (r, e) ↦ rw e (
              ground (
                arith,
                find_holds (is_row id) rows r e,
                eq_iff r.info.task_id id,
                eq_iff r.info.task_id t.task_id,
                eq_iff t.task_id id,
              ))
        ]))
  | inr fresh ↦ rw fresh (
      rw (find-append_one (is_row id) rows) (elim (Option-cases (find (is_row id) rows)) [
        | inl e ↦ rw e (ground arith)
        | inr (r, e) ↦
            rw e (ground (arith, eq_iff t.task_id id, any-find (is_row t.task_id) rows fresh))
      ]))
]

module _ (sid : String) (id : String) where
  abbrev status_or : Option TaskInfo → Option TaskStatus → Option TaskStatus
  status_or none o = o
  status_or (some t) o = some t.status

  status_in-persist_all :
      (ts : ℕ) (tasks : List TaskInfo) (p : Persisted)
      → status_in id (persist_all sid ts tasks p).db.tasks
        ≡ status_or (latest id tasks) (status_in id p.db.tasks)
  unfolding persist_all
  status_in-persist_all ts [] p = refl
  status_in-persist_all ts (t ∷ tasks) p =
      status_in-persist_all ts tasks _ ∙ ground (arith, status_in-upsert_task sid id t p.db.tasks)

  has_id-persist_all :
      (ts : ℕ) (tasks : List TaskInfo) (p : Persisted)
      → has_id id (persist_all sid ts tasks p).ids ≡ (has_task id tasks || has_id id p.ids)
  unfolding persist_all
  has_id-persist_all ts [] p = refl
  has_id-persist_all ts (t ∷ tasks) p = has_id-persist_all ts tasks _ ∙ ground arith

  -- An end of this task that is still to be written is an abnormal one.
  abbrev EndsAbnormal : List String → TaskDiffResult → Type 0
  EndsAbnormal ids d =
      (is_ended d.event_type && (d.task.task_id == id && not (has_id id ids))) ≡ true
      → d.task.status ≡ abnormal

  status_in-persist_gone :
      (ds : List TaskDiffResult) (p : Persisted)
      → All (EndsAbnormal p.ids) ds
      → status_in id (persist_gone sid ds p).db.tasks ≡ (
          if not (has_id id p.ids) && reports ended id ds
          then some abnormal
          else status_in id p.db.tasks)
  unfolding persist_gone
  status_in-persist_gone [] p h = ground arith
  status_in-persist_gone (d ∷ ds) p (h, hs) =
      elim (Bool-cases (is_ended d.event_type && not (has_id d.task.task_id p.ids))) [
        | inl t ↦
            rw (t, persist_gone)
              (status_in-persist_gone ds _ (
                  All-weaken (EndsAbnormal p.ids) (EndsAbnormal (d.task.task_id ∷ p.ids)) ds
                    (λ x k m. k (ground arith)) hs)
                ∙ ground (
                  arith,
                  status_in-upsert_task sid id d.task p.db.tasks,
                  h,
                  eq_iff d.task.task_id id,
                ))
        | inr f ↦
            rw (f, persist_gone)
              (status_in-persist_gone ds p hs ∙ ground (arith, eq_iff d.task.task_id id))
      ]

  All-append :
      (P : TaskDiffResult → Type 0) (xs ys : List TaskDiffResult)
      → All P xs
      → All P ys
      → All P (xs ++ ys)
  All-append P [] ys h k = k
  All-append P (x ∷ xs) ys (h, hs) k = (h, All-append P xs ys hs k)

  compare_task-abnormal :
      (ids : List String) (o : Option TaskInfo) (t : TaskInfo)
      → All (EndsAbnormal ids) (compare_task sid o t)
  unfolding compare_task
  compare_task-abnormal ids none t = elim (Bool-cases (is_running t.status)) [
    | inl e ↦ rw e ((λ k. cc), ((λ k. cc), tt))
    | inr e ↦ rw e ((λ k. cc), tt)
  ]
  compare_task-abnormal ids (some q) t =
      elim (Bool-cases (is_queued q.status && is_running t.status)) [
        | inl e ↦ rw e ((λ k. cc), tt)
        | inr e ↦ rw e tt
      ]

  active_events-abnormal :
      (ids : List String) (m : List (String × TaskInfo)) (ts : List TaskInfo)
      → All (EndsAbnormal ids) (active_events sid m ts)
  unfolding active_events
  active_events-abnormal ids m [] = tt
  active_events-abnormal ids m (t ∷ ts) =
      All-append (EndsAbnormal ids) (compare_task sid (map_get t.task_id m) t)
        (active_events sid m ts) (compare_task-abnormal ids (map_get t.task_id m) t)
        (active_events-abnormal ids m ts)

  ended_events-abnormal :
      (ids : List String) (ts : List TaskInfo)
      → (has_task id ts ≡ true → has_id id ids ≡ true)
      → All (EndsAbnormal ids) (ended_events sid ts)
  unfolding ended_events
  ended_events-abnormal ids [] h = tt
  ended_events-abnormal ids (t ∷ ts) h = (
    (λ k. ground (arith, h, eq_iff t.task_id id)),
    ended_events-abnormal ids ts (λ k. h (ground arith)),
  )

  gone_events-abnormal :
      (ids : List String) (now : ℕ) (c e : List (String × TaskInfo)) (ts : List TaskInfo)
      → All (EndsAbnormal ids) (gone_events sid now c e ts)
  unfolding gone_events
  gone_events-abnormal ids now c e [] = tt
  gone_events-abnormal ids now c e (t ∷ ts) =
      elim (Bool-cases (not (map_has t.task_id c) && not (map_has t.task_id e))) [
        | inl k ↦ rw (k, gone_events) ((λ m. refl), gone_events-abnormal ids now c e ts)
        | inr k ↦ rw (k, gone_events) (gone_events-abnormal ids now c e ts)
      ]

  latest-has_task : (ts : List TaskInfo) → has_task id ts ≡ is_some (latest id ts)
  latest-has_task [] = refl
  latest-has_task (t ∷ ts) = ground (arith, latest-has_task ts)

  module _ (now report_timestamp : ℕ) (prev : Option TaskQueue) (curr : TaskQueue)
      (db : TaskDb) where
    diff_tasks-abnormal :
        (ids : List String)
        → (has_task id curr.recently_ended ≡ true → has_id id ids ≡ true)
        → All
            (EndsAbnormal ids)
            (diff_tasks sid now (previous_tasks prev) (active_tasks curr) curr.recently_ended)
    unfolding diff_tasks
    diff_tasks-abnormal ids h =
        All-append (EndsAbnormal ids)
          (active_events sid (map_of_tasks (previous_tasks prev)) (active_tasks curr)) _
          (active_events-abnormal ids (map_of_tasks (previous_tasks prev)) (active_tasks curr))
          (All-append (EndsAbnormal ids) (ended_events sid curr.recently_ended) _
            (ended_events-abnormal ids curr.recently_ended h)
            (gone_events-abnormal ids now (map_of_tasks (active_tasks curr))
              (map_of_tasks curr.recently_ended) (previous_tasks prev)))

    -- After a report, whatever status a task id had before, an ended or a running one included, it
    -- has the status of its last listing, or abnormal if it was active in the report before and is
    -- listed no more; and if it was neither, it keeps the status it had.
    pub process_report-status :
        status_in id (process_report sid now report_timestamp prev curr db).0.tasks ≡ (
          if has_task id curr.recently_ended || has_task id (active_tasks curr)
          then status_or
              (latest id curr.recently_ended)
              (status_or (latest id (active_tasks curr)) none)
          else if has_task id (previous_tasks prev)
          then some abnormal
          else status_in id db.tasks)
    unfolding process_report
    process_report-status =
        let listed =
          persist_all sid report_timestamp curr.recently_ended
            (persist_all sid report_timestamp (active_tasks curr) (record { db = db; ids = [] })) in
        let active =
          persist_all sid report_timestamp (active_tasks curr) (record { db = db; ids = [] }) in
        let ids_ended = has_id-persist_all report_timestamp curr.recently_ended active in
        let ids_active =
          has_id-persist_all report_timestamp (active_tasks curr) (record { db = db; ids = [] }) in
        let status_ended = status_in-persist_all report_timestamp curr.recently_ended active in
        let status_active =
          status_in-persist_all report_timestamp (active_tasks curr)
            (record { db = db; ids = [] }) in
        let gone =
          diff_tasks-ended sid id now (previous_tasks prev) (active_tasks curr)
            curr.recently_ended in
        status_in-persist_gone
          (diff_tasks sid now (previous_tasks prev) (active_tasks curr) curr.recently_ended) listed
          (diff_tasks-abnormal listed.ids (λ k. ground (arith, ids_ended, k)))
        ∙ ground (
          arith,
          ids_ended,
          ids_active,
          status_ended,
          status_active,
          gone,
          latest-has_task curr.recently_ended,
          latest-has_task (active_tasks curr),
        )
