-- ===== src/Tasks/Queries.antt =====
-- Reading tasks: `getTasks`, `getTaskById`, `countTasks` and `buildTaskQuery` of
-- server/core/src/db/tasks.ts. A query runs at one `now`.
use pmeow.Prelude.{
  ℕ, zero, suc, String, Bool, true, ◌&&◌, List, [], ◌∷◌, map, Option, none, some, ◌==◌, string_eq,
  if◌then◌else◌, leb, any, select, sort, length,
}
use mathlib.Core.Option
use pmeow.Tasks.Types.{TaskStatus, queued, running, succeeded, failed, cancelled, abnormal}
use pmeow.Tasks.Store.{TaskRow, get_task_by_id}
use pmeow.Persons.Bindings.{PersonBindingRecord, BindingDb, is_active_for}
use pmeow.Servers.{ServerRecord, get_server_by_id}

pub record TaskQueryFilter : Type 0 where
  pub server_id : Option String
  pub status : Option String
  pub user : Option String
  pub person_id : Option String
  pub limit : Option ℕ
  pub offset : Option ℕ

pub record TaskRecord : Type 0 where
  pub server_name : String
  pub row : TaskRow

abbrev pub status_name : TaskStatus → String
status_name queued = "queued"
status_name running = "running"
status_name succeeded = "succeeded"
status_name failed = "failed"
status_name cancelled = "cancelled"
status_name abnormal = "abnormal"

-- A condition of the query: none where the value is missing or empty.
abbrev pub holds : (String → Bool) → Option String → Bool
holds test none = true
holds test (some v) = if v == "" then true else test v

-- The person's bindings that are in force now and are of the task's account.
abbrev pub is_bound_to : ℕ → String → String → String → PersonBindingRecord → Bool
is_bound_to now person sid user b = b.person_id == person && is_active_for now sid user b

abbrev pub is_of_person : ℕ → BindingDb → TaskRow → String → Bool
is_of_person now db r person = any (is_bound_to now person r.server_id r.info.user) db.bindings

-- The WHERE clause.
unfoldable pub build_task_query : ℕ → BindingDb → TaskQueryFilter → TaskRow → Bool
build_task_query now db filter r =
    holds (λ v. r.server_id == v) filter.server_id
    && (holds (λ v. status_name r.info.status == v) filter.status
        && (holds (λ v. r.info.user == v) filter.user
            && holds (is_of_person now db r) filter.person_id))

-- LIMIT and OFFSET
abbrev pub take {ℓ} : {A : Type ℓ} → ℕ → List A → List A
take zero xs = []
take (suc n) [] = []
take (suc n) (x ∷ xs) = x ∷ take n xs

abbrev pub drop {ℓ} : {A : Type ℓ} → ℕ → List A → List A
drop zero xs = xs
drop (suc n) [] = []
drop (suc n) (x ∷ xs) = drop n xs

abbrev pub skip {ℓ} : {A : Type ℓ} → Option ℕ → List A → List A
skip none xs = xs
skip (some n) xs = drop n xs

abbrev pub limited {ℓ} : {A : Type ℓ} → Option ℕ → Option ℕ → List A → List A
limited none offset xs = xs
limited (some n) offset xs = take n (skip offset xs)

-- LEFT JOIN servers
abbrev pub name_or : String → Option ServerRecord → String
name_or sid none = sid
name_or sid (some s) = s.name

abbrev pub map_task_row : List ServerRecord → TaskRow → TaskRecord
map_task_row servers r = record {
  server_name = name_or r.server_id (get_server_by_id r.server_id servers);
  row = r;
}

-- ORDER BY created_at DESC
abbrev pub newest_first : TaskRow → TaskRow → Bool
newest_first a b = leb b.info.created_at a.info.created_at

module _ (now : ℕ) (servers : List ServerRecord) (db : BindingDb) (rows : List TaskRow) where
  unfoldable pub get_tasks : TaskQueryFilter → List TaskRecord
  unfolding build_task_query sort
  get_tasks filter = map (map_task_row servers) (
      limited filter.limit filter.offset
        (sort newest_first (select (build_task_query now db filter) rows)))

  unfoldable pub count_tasks : TaskQueryFilter → ℕ
  unfolding build_task_query
  count_tasks filter = length (select (build_task_query now db filter) rows)

unfoldable pub get_task : String → List ServerRecord → List TaskRow → Option TaskRecord
unfolding get_task_by_id
get_task id servers rows = Option.map (map_task_row servers) (get_task_by_id id rows)
