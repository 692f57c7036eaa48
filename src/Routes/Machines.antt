-- ===== src/Routes/Machines.antt =====
-- What the routes of servers and metrics let a principal see and do:
-- server/runtime/src/routes/server-routes.ts and metrics-routes.ts. A text of a body is none where it is
-- of another type, and `trim` is `String.trim`. The JSON
-- object of an answer is the list of its entries.
use mathlib.Core.Option
use pmeow.Prelude.{
  ℕ, String, Bool, true, false, not, ◌||◌, List, map, Option, none, some, ◌==◌, nat_eq, string_eq,
  if◌then◌else◌, is_some, select, sort,
}
use pmeow.Nodes.{AgentSessionRegistry, get_session, get_last_report_at}
use pmeow.Persons.Bindings.{Principal, BindingDb, can_access_server}
use pmeow.Persons.Scope.{get_accessible_server_ids, is_accessible}
use pmeow.Servers.{
  ServerRecord, ServerInput, ServerUpdateInput, create_server, update_server, delete_server,
}
use pmeow.Snapshots.Store.{SnapshotWithGpus, Tier, get_snapshot_history}
use pmeow.Ingest.Pipeline.{IngestPipeline, UnifiedReport}
use pmeow.Tasks.Service.{RouteAnswer, status, answered}
use pmeow.Routes.Answers.{for_admin, found_or_404}

-- ORDER BY name ASC, with SQLite's order of names.
unfoldable pub get_all_servers : (String → String → Bool) → List ServerRecord → List ServerRecord
unfolding sort
get_all_servers name_before servers = sort (λ a b. name_before a.name b.name) servers

pub record ServerStatus : Type 0 where
  pub server_id : String
  pub is_online : Bool
  pub last_seen_at : Option ℕ

-- The tables that the writing routes change, and whether `serversChanged` has been called.
abbrev pub Changed : Type 0
Changed = List ServerRecord × Bool

abbrev pub server_created :
    List ServerRecord
    → Option (List ServerRecord × ServerRecord)
    → Changed × RouteAnswer ServerRecord
server_created servers none = ((servers, false), status 500)
server_created servers (some r) = ((r.0, true), answered r.1)

abbrev pub server_updated :
    List ServerRecord
    → Option (List ServerRecord × Option ServerRecord)
    → Changed × RouteAnswer ServerRecord
server_updated servers none = ((servers, false), status 500)
server_updated servers (some r) = ((r.0, is_some r.1), found_or_404 r.1)

-- A text that is given and empty.
abbrev pub is_blank : Option String → Bool
is_blank none = false
is_blank (some s) = s == ""

abbrev pub status_entry : AgentSessionRegistry → ServerRecord → String × ServerStatus
status_entry registry s = (
  s.id,
  record {
    server_id = s.id;
    is_online = is_some (get_session s.agent_id registry);
    last_seen_at = get_last_report_at s.agent_id registry;
  },
)

module _ (trim : String → String) (name_before : String → String → Bool) where
  -- GET /servers
  unfoldable pub get_servers_route :
      Option Principal → List ServerRecord → BindingDb → RouteAnswer (List ServerRecord)
  unfolding get_all_servers get_accessible_server_ids
  get_servers_route none servers db = status 401
  get_servers_route (some p) servers db =
      let ids = get_accessible_server_ids p db in
      answered (select (λ s. is_accessible s.id ids) (get_all_servers name_before servers))

  -- POST /servers
  unfoldable pub create_server_route :
      Option Principal
      → ℕ
      → String
      → ServerInput
      → List ServerRecord
      → Changed × RouteAnswer ServerRecord
  unfolding create_server
  create_server_route p now id input servers =
      for_admin p (servers, false)
        (if input.name == "" || input.agent_id == ""
          then ((servers, false), status 400)
          else server_created servers (create_server now id input servers))

  -- PUT /servers/:id
  unfoldable pub update_server_route :
      Option Principal
      → ℕ
      → String
      → ServerUpdateInput
      → List ServerRecord
      → Changed × RouteAnswer ServerRecord
  unfolding update_server
  update_server_route p now id body servers =
      let name = Option.map trim body.name in
      let agent = Option.map trim body.agent_id in
      for_admin p (servers, false)
        (if is_blank name || (is_blank agent || not (is_some name || is_some agent))
          then ((servers, false), status 400)
          else server_updated servers
              (update_server now id (record { name = name; agent_id = agent }) servers))

  -- DELETE /servers/:id
  unfoldable pub delete_server_route :
      Option Principal → String → List ServerRecord → Changed × RouteAnswer (Unit {0})
  unfolding delete_server
  delete_server_route p id servers =
      let rest = delete_server id servers in
      for_admin p (servers, false)
        (if rest.1 then ((rest.0, true), answered tt) else ((servers, false), status 404))

  -- GET /statuses
  unfoldable pub get_statuses_route :
      Option Principal
      → AgentSessionRegistry
      → List ServerRecord
      → BindingDb
      → RouteAnswer (List (String × ServerStatus))
  unfolding get_all_servers get_accessible_server_ids get_session get_last_report_at
  get_statuses_route none registry servers db = status 401
  get_statuses_route (some p) registry servers db =
      let ids = get_accessible_server_ids p db in
      answered (
        map (status_entry registry)
          (select (λ s. is_accessible s.id ids) (get_all_servers name_before servers)))

-- `Number(value) || d`, where the value reads as a whole number or as none.
abbrev pub number_or : ℕ → Option ℕ → ℕ
number_or d none = d
number_or d (some t) = if t == 0 then d else t

module _ {V R G : Type 0} where
  -- GET /metrics/latest
  unfoldable pub get_latest_route :
      Option Principal
      → IngestPipeline V R G
      → BindingDb
      → RouteAnswer (List (String × UnifiedReport V R G))
  unfolding get_accessible_server_ids
  get_latest_route none pipeline db = status 401
  get_latest_route (some p) pipeline db =
      let ids = get_accessible_server_ids p db in
      answered (select (λ e. is_accessible e.0 ids) pipeline.latest_reports)

  -- GET /metrics/:serverId/history
  unfoldable pub get_history_route :
      Option Principal
      → ℕ
      → String
      → Option ℕ
      → Option ℕ
      → Option Tier
      → IngestPipeline V R G
      → BindingDb
      → RouteAnswer (List (SnapshotWithGpus R G))
  unfolding can_access_server get_snapshot_history
  get_history_route none now sid from to tier pipeline db = status 401
  get_history_route (some p) now sid from to tier pipeline db =
      if not (can_access_server p sid db)
      then status 403
      else answered
          (get_snapshot_history sid (number_or 0 from) (number_or now to) tier pipeline.snapshots)
