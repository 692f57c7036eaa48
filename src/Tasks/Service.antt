-- ===== src/Tasks/Service.antt =====
-- The task service and its routes: server/core/src/task/service.ts,
-- server/runtime/src/routes/task-routes.ts and server/runtime/src/routes/pagination.ts. A command to an
-- agent is listed with the session that it is sent on.
use pmeow.Prelude.{
  ℕ, ◌-◌, ◌*◌, String, not, List, [], ◌∷◌, Option, none, some, ◌==◌, string_eq, if◌then◌else◌, leb,
  ℤ, pos, negsuc,
}
use pmeow.Nodes.{AgentSession, AgentSessionRegistry, get_session_by_server_id}
use pmeow.Persons.Bindings.{BindingDb, Principal, admin, person, can_access_task}
use pmeow.Servers.{ServerRecord}
use pmeow.Tasks.Store.{TaskRow}
use pmeow.Tasks.Queries.{TaskQueryFilter, TaskRecord, get_tasks, count_tasks, get_task}

abbrev pub for_principal : Principal → TaskQueryFilter → TaskQueryFilter
for_principal admin filter = filter
for_principal (person id) filter = record filter { person_id = some id }

module _ (now : ℕ) (servers : List ServerRecord) (db : BindingDb) (rows : List TaskRow) where
  unfoldable pub list_tasks_for_principal : Principal → TaskQueryFilter → List TaskRecord
  unfolding get_tasks
  list_tasks_for_principal p filter = get_tasks now servers db rows (for_principal p filter)

  unfoldable pub count_tasks_for_principal : Principal → TaskQueryFilter → ℕ
  unfolding count_tasks
  count_tasks_for_principal p filter = count_tasks now servers db rows (for_principal p filter)

-- `truncated` is `Math.trunc(Number(value))`, and none where that is not finite.
module _ {Q : Type 0} (truncated : Q → Option ℤ) where
  abbrev pub positive : Option ℤ → Option ℕ
  positive none = none
  positive (some (negsuc n)) = none
  positive (some (pos n)) = if leb 1 n then some n else none

  abbrev pub or_default : ℕ → Option ℕ → ℕ
  or_default d none = d
  or_default d (some n) = n

  unfoldable pub parse_positive_int : Q → Option ℕ
  parse_positive_int value = positive (truncated value)

  abbrev pub min_of : ℕ → ℕ → ℕ
  min_of a b = if leb a b then a else b

  pub record Pagination : Type 0 where
    pub page : ℕ
    pub limit : ℕ
    pub offset : ℕ

  unfoldable pub parse_pagination : Q → Q → Pagination
  unfolding parse_positive_int
  parse_pagination page limit =
      let p = or_default 1 (parse_positive_int page) in
      let l = min_of (or_default 20 (parse_positive_int limit)) 100 in
      record { page = p; limit = l; offset = (p - 1) * l }

pub data Command : Type 0 where
  cancel_task : String → Command
  set_priority : String → ℤ → Command

pub data RouteAnswer {ℓ} (A : Type ℓ) : Type ℓ where
  status : ℕ → RouteAnswer A
  answered : A → RouteAnswer A

-- `session.emit`, where the server's agent is connected.
abbrev pub emitted : Command → Option AgentSession → List (AgentSession × Command)
emitted c none = []
emitted c (some s) = (s, c) ∷ []

unfoldable pub emit : AgentSessionRegistry → String → Command → List (AgentSession × Command)
unfolding get_session_by_server_id
emit registry sid c = emitted c (get_session_by_server_id sid registry)

module _ (servers : List ServerRecord) (db : BindingDb) (rows : List TaskRow) where
  -- GET /tasks/:taskId
  unfoldable pub get_task_route : Principal → String → RouteAnswer TaskRecord
  unfolding get_task
  get_task_route p id = elim (get_task id servers rows) [
    | none ↦ status 404
    | some t ↦
        if can_access_task p t.row.server_id t.row.info.user db then answered t else status 403
  ]

  -- POST /servers/:serverId/tasks/:taskId/cancel
  unfoldable pub cancel_task_route :
      AgentSessionRegistry
      → Principal
      → String
      → String
      → RouteAnswer (Unit {0}) × List (AgentSession × Command)
  unfolding get_task emit
  cancel_task_route registry p sid id = elim (get_task id servers rows) [
    | none ↦ (status 404, [])
    | some t ↦
        if not (t.row.server_id == sid)
        then (status 404, [])
        else if can_access_task p t.row.server_id t.row.info.user db
        then (answered tt, emit registry sid (cancel_task id))
        else (status 403, [])
  ]

  -- POST /servers/:serverId/tasks/:taskId/priority; none is a body whose priority is no number.
  unfoldable pub set_priority_route :
      AgentSessionRegistry
      → Principal
      → String
      → String
      → Option ℤ
      → RouteAnswer (Unit {0}) × List (AgentSession × Command)
  unfolding emit
  set_priority_route registry (person own) sid id priority = (status 403, [])
  set_priority_route registry admin sid id none = (status 400, [])
  set_priority_route registry admin sid id (some priority) =
      (answered tt, emit registry sid (set_priority id priority))
