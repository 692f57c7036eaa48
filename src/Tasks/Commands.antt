-- ===== src/Tasks/Commands.antt =====
-- What a person may see and cancel: server/core/src/task/service.ts and
-- server/runtime/src/routes/task-routes.ts.
use pmeow.Prelude.{
  ℕ, zero, suc, String, Bool, true, false, ◌&&◌, List, [], ◌∷◌, map, Option, none, some, ◌==◌,
  string_eq, eq_iff, ◌≡◌, ◌≢◌, refl, arith, inl, inr, Bool-cases, Option-cases, All, All-of_select,
  is_some, All-weaken, sort-All, any, select, find_holds,
}
use pmeow.Nodes.{AgentSession, AgentSessionRegistry, get_session_by_server_id}
use pmeow.Persons.Bindings.{PersonBindingRecord, BindingDb, Principal, person, can_access_task}
use pmeow.Servers.{ServerRecord}
use pmeow.Tasks.Store.{TaskRow}
use pmeow.Tasks.Queries.{
  TaskQueryFilter, TaskRecord, take, drop, skip, limited, build_task_query, is_bound_to,
  map_task_row, newest_first, get_tasks, get_task,
}
use pmeow.Tasks.Service.{
  list_tasks_for_principal, for_principal, Command, cancel_task, emit, cancel_task_route,
  RouteAnswer, status, answered,
}

module _ {ℓ κ} {A : Type ℓ} (P : A → Type κ) where
  pub All-take : (n : ℕ) (xs : List A) → All P xs → All P (take n xs)
  All-take zero xs h = tt
  All-take (suc n) [] h = tt
  All-take (suc n) (x ∷ xs) (h, hs) = (h, All-take n xs hs)

  All-drop : (n : ℕ) (xs : List A) → All P xs → All P (drop n xs)
  All-drop zero xs h = h
  All-drop (suc n) [] h = tt
  All-drop (suc n) (x ∷ xs) (h, hs) = All-drop n xs hs

  All-skip : (o : Option ℕ) (xs : List A) → All P xs → All P (skip o xs)
  All-skip none xs h = h
  All-skip (some n) xs h = All-drop n xs h

  All-limited : (l o : Option ℕ) (xs : List A) → All P xs → All P (limited l o xs)
  All-limited none o xs h = h
  All-limited (some n) o xs h = All-take n (skip o xs) (All-skip o xs h)

All-of_map {ℓ κ μ} :
    {A : Type ℓ} {B : Type κ} (P : B → Type μ) (f : A → B) (xs : List A)
    → All (λ x. P (f x)) xs
    → All P (map f xs)
All-of_map P f [] h = tt
All-of_map P f (x ∷ xs) (h, hs) = (h, All-of_map P f xs hs)

-- A binding in force is an enabled one.
bound-can_access :
    (now : ℕ) (id sid user : String) (xs : List PersonBindingRecord)
    → any (is_bound_to now id sid user) xs ≡ true
    → any
        (λ b. b.server_id == sid && (b.system_user == user && b.enabled))
        (select (λ b. b.person_id == id) xs)
      ≡ true
bound-can_access now id sid user [] h = cc
bound-can_access now id sid user (b ∷ xs) h = ground (arith, bound-can_access now id sid user xs)

module _ (now : ℕ) (servers : List ServerRecord) (db : BindingDb) (rows : List TaskRow) where
  matched-can_access :
      (id : String) (filter : TaskQueryFilter) (r : TaskRow)
      → id ≢ ""
      → build_task_query now db (for_principal (person id) filter) r ≡ true
      → can_access_task (person id) r.server_id r.info.user db ≡ true
  unfolding build_task_query can_access_task
  matched-can_access id filter r named h =
      bound-can_access now id r.server_id r.info.user db.bindings (ground (arith, eq_iff id ""))

  -- Every task that is listed for a person whose id is not empty is one that the person can
  -- access.
  pub list_tasks_for_principal-can_access_task :
      (id : String) (filter : TaskQueryFilter)
      → id ≢ ""
      → All
          (λ t. can_access_task (person id) t.row.server_id t.row.info.user db ≡ true)
          (list_tasks_for_principal now servers db rows (person id) filter)
  unfolding list_tasks_for_principal get_tasks
  list_tasks_for_principal-can_access_task id filter named =
      let query = build_task_query now db (for_principal (person id) filter) in
      All-of_map _ (map_task_row servers) _ (
        All-limited _ filter.limit filter.offset _ (
          sort-All newest_first (λ r. can_access_task (person id) r.server_id r.info.user db ≡ true)
            (select query rows)
            (All-weaken (λ r. query r ≡ true) _ (select query rows)
              (λ r h. matched-can_access id filter r named h) (All-of_select query rows))))

session_server :
    (sid : String) (registry : AgentSessionRegistry) (s : AgentSession)
    → get_session_by_server_id sid registry ≡ some s
    → s.server_id ≡ sid
unfolding get_session_by_server_id
session_server sid registry s e =
    (eq_iff s.server_id sid).0 (find_holds (λ x. x.server_id == sid) _ s e)

abbrev pub is_sent {ℓ} : {A : Type ℓ} → List A → Bool
is_sent [] = false
is_sent (x ∷ xs) = true

abbrev pub is_answered {ℓ} : {A : Type ℓ} → RouteAnswer A → Bool
is_answered (answered a) = true
is_answered (status code) = false

-- The session is of this server, and the command names a task of that server which the principal may
-- access.
abbrev pub IsAllowed :
    List ServerRecord
    → BindingDb
    → List TaskRow
    → Principal
    → String
    → String
    → AgentSession × Command
    → Type 0
IsAllowed servers db rows p sid id (s, c) =
    (s.server_id ≡ sid)
    × (c ≡ cancel_task id)
    × (t : TaskRecord) × (get_task id servers rows ≡ some t)
    × (t.row.server_id ≡ sid)
    × (can_access_task p t.row.server_id t.row.info.user db ≡ true)

module _ (servers : List ServerRecord) (db : BindingDb) (rows : List TaskRow) where
  cancel_task_route-IsAllowed :
      (registry : AgentSessionRegistry) (p : Principal) (sid id : String)
      → All
          (IsAllowed servers db rows p sid id)
          (cancel_task_route servers db rows registry p sid id).1
  unfolding cancel_task_route emit get_session_by_server_id
  cancel_task_route-IsAllowed registry p sid id = elim (Option-cases (get_task id servers rows)) [
    | inl e ↦ rw (e, cancel_task_route) tt
    | inr (t, e) ↦
        rw (e, cancel_task_route)
          (elim (Bool-cases (t.row.server_id == sid)) [
            | inr f ↦ rw f tt
            | inl own ↦
                rw own (elim (Bool-cases (can_access_task p t.row.server_id t.row.info.user db)) [
                  | inr f ↦ rw f tt
                  | inl may ↦ rw may (elim (Option-cases (get_session_by_server_id sid registry)) [
                    | inl n ↦ rw n tt
                    | inr (s, n) ↦ rw n (
                      (
                        session_server sid registry s n,
                        refl,
                        t,
                        e,
                        (eq_iff t.row.server_id sid).0 own,
                        may,
                      ),
                      tt,
                    )
                  ])
                ])
          ])
  ]

  cancel_task_route-sent :
      (registry : AgentSessionRegistry) (p : Principal) (sid id : String)
      → is_sent (cancel_task_route servers db rows registry p sid id).1 ≡ (
          is_answered (cancel_task_route servers db rows registry p sid id).0
          && is_some (get_session_by_server_id sid registry))
  unfolding cancel_task_route emit
  cancel_task_route-sent registry p sid id = elim (Option-cases (get_task id servers rows)) [
    | inl e ↦ rw (e, cancel_task_route) refl
    | inr (t, e) ↦ rw (e, cancel_task_route) (ground arith)
  ]

  -- Every command that a request to cancel a task sends goes to a session of the named server and
  -- cancels the named task, which is on that server and which the principal can access; one is
  -- sent exactly when the request is answered and the server's agent is connected.
  pub cancel_task_route-commands :
      (registry : AgentSessionRegistry) (p : Principal) (sid id : String)
      → All
          (IsAllowed servers db rows p sid id)
          (cancel_task_route servers db rows registry p sid id).1
        × (is_sent (cancel_task_route servers db rows registry p sid id).1 ≡ (
            is_answered (cancel_task_route servers db rows registry p sid id).0
            && is_some (get_session_by_server_id sid registry)))
  cancel_task_route-commands registry p sid id =
      (cancel_task_route-IsAllowed registry p sid id, cancel_task_route-sent registry p sid id)
