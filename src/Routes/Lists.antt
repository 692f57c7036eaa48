-- ===== src/Routes/Lists.antt =====
-- The routes that list tasks and tokens: server/runtime/src/routes/task-routes.ts and person-routes.ts, with
-- `getPersonTasks` of server/core/src/person/service.ts and the list of a person's tokens of
-- server/core/src/db/person-tokens.ts. `truncated` is `Math.trunc(Number(value))`, none where that is not
-- finite.
use pmeow.Prelude.{
  ℕ, ◌-◌, ◌*◌, String, List, map, Option, none, some, ◌==◌, string_eq, leb, if◌then◌else◌, select,
  sort, ℤ,
}
use pmeow.Persons.Bindings.{Principal, BindingDb}
use pmeow.Persons.Tokens.{PersonTokenRecord, TokenDb}
use pmeow.Auth.Login.{can_access_person_id}
use pmeow.Servers.{ServerRecord}
use pmeow.Tasks.Store.{TaskRow}
use pmeow.Tasks.Queries.{TaskQueryFilter, TaskRecord, get_tasks, count_tasks}
use pmeow.Tasks.Service.{
  RouteAnswer, status, answered, parse_pagination, list_tasks_for_principal,
  count_tasks_for_principal,
}
use pmeow.Routes.People.{SafeToken, sanitize_token}

pub record TaskPage : Type 0 where
  pub tasks : List TaskRecord
  pub total : ℕ

-- ORDER BY created_at DESC
unfoldable pub get_person_tokens_by_person_id : String → TokenDb → List PersonTokenRecord
unfolding sort
get_person_tokens_by_person_id id db =
    sort (λ a b. leb b.created_at a.created_at) (select (λ t. t.person_id == id) db.tokens)

-- GET /persons/:id/tokens
unfoldable pub get_tokens_route : Option Principal → String → TokenDb → RouteAnswer (List SafeToken)
unfolding get_person_tokens_by_person_id
get_tokens_route p id db =
    if can_access_person_id p id
    then answered (map sanitize_token (get_person_tokens_by_person_id id db))
    else status 403

module _ (now : ℕ) (servers : List ServerRecord) (db : BindingDb) (rows : List TaskRow) where
  abbrev pub of_person : String → TaskQueryFilter
  of_person id = record {
    server_id = none;
    status = none;
    user = none;
    person_id = some id;
    limit = none;
    offset = none;
  }

  -- A page is at least 1.
  unfoldable pub get_person_tasks : String → ℕ → ℕ → TaskPage
  unfolding get_tasks count_tasks
  get_person_tasks id page limit = record {
    tasks =
        get_tasks now servers db rows
          (record (of_person id) { limit = some limit; offset = some ((page - 1) * limit) });
    total = count_tasks now servers db rows (of_person id);
  }

  module _ {Q : Type 0} (truncated : Q → Option ℤ) where
    -- GET /persons/:id/tasks
    unfoldable pub get_person_tasks_route : Option Principal → String → Q → Q → RouteAnswer TaskPage
    unfolding get_person_tasks parse_pagination
    get_person_tasks_route p id page limit =
        let q = parse_pagination truncated page limit in
        if can_access_person_id p id
        then answered (get_person_tasks id q.page q.limit)
        else status 403

    -- GET /tasks; the filter has no person and no limits.
    unfoldable pub get_tasks_route :
        Option Principal → TaskQueryFilter → Q → Q → RouteAnswer TaskPage
    unfolding list_tasks_for_principal count_tasks_for_principal parse_pagination
    get_tasks_route none filter page limit = status 401
    get_tasks_route (some p) filter page limit =
        let q = parse_pagination truncated page limit in
        answered (record {
          tasks =
              list_tasks_for_principal now servers db rows p
                (record filter { limit = some q.limit; offset = some q.offset });
          total = count_tasks_for_principal now servers db rows p filter;
        })
