-- ===== src/Realtime/Agents.antt =====
-- `createAgentNamespace`: server/runtime/src/realtime.ts. Each socket has its own variable `agentId`; here
-- they are a map from the sockets to the agents that registered on them. What a handler calls outside is
-- listed as effects in their order. `is_finite` is `Number.isFinite`.
use pmeow.Prelude.{
  ℕ, String, Bool, not, List, [], ◌∷◌, Option, none, some, ◌==◌, nat_eq, string_eq, if◌then◌else◌,
  map_get, map_set,
}
use pmeow.Nodes.{
  AgentSession, AgentSessionRegistry, attach_session, detach_session, get_session,
  update_last_report,
}
use pmeow.Servers.{ServerRecord, get_server_by_agent_id, create_server}
use pmeow.Protocol.Json.{Json, text, get}
use pmeow.Protocol.Guards.{is_agent_register_payload}
use pmeow.Protocol.Parse.{Parsed, parsed, rejected, thrown, parse_unified_report}

pub data ServerStatus : Type 0 where
  online offline : ServerStatus

pub data Effect (V : Type 0) : Type 0 where
  server_status : String → ServerStatus → ℕ → Effect V
  servers_changed : Effect V
  -- `pipeline.processReport(serverId, report)`
  process_report : String → Json V → Effect V
  -- An exception that leaves the handler.
  uncaught : Effect V

pub record Hub : Type 0 where
  pub agents : List (ℕ × String)
  pub registry : AgentSessionRegistry
  pub servers : List ServerRecord

-- A text that the guard has tested.
abbrev pub text_of : {V : Type 0} → Option (Json V) → String
text_of (some (text s)) = s
text_of _ = ""

abbrev pub attached : ℕ → ℕ → String → String → Hub → Hub
attached now socket agent sid hub = record hub {
  agents = map_set socket agent hub.agents;
  registry = attach_session now (record { agent_id = agent; server_id = sid }) hub.registry;
}

-- `if (!agentId)`: a socket on which nothing, or an empty name, has registered.
abbrev pub named : Option String → Option String
named none = none
named (some agent) = if agent == "" then none else some agent

module _ {V : Type 0} where
  abbrev pub announced : ℕ → String → List (Effect V)
  announced now sid = server_status sid online now ∷ servers_changed ∷ []

  -- The handler of `agent:register`. `fresh` is the id that a new server would get.
  unfoldable pub on_register : ℕ → String → ℕ → Json V → Hub → Hub × List (Effect V)
  unfolding is_agent_register_payload get_server_by_agent_id create_server attach_session
  on_register now fresh socket payload hub =
      let agent = text_of (get "agentId" payload) in
      if not (is_agent_register_payload payload)
      then (hub, [])
      else elim (get_server_by_agent_id agent hub.servers) [
        | some server ↦ (attached now socket agent server.id hub, announced now server.id)
        | none ↦
            elim (create_server now fresh
              (record { name = text_of (get "hostname" payload); agent_id = agent }) hub.servers) [
                | none ↦ (record hub { agents = map_set socket agent hub.agents }, uncaught ∷ [])
                | some (servers, server) ↦ (
                  attached now socket agent server.id (record hub { servers = servers }),
                  announced now server.id,
                )
              ]
      ]

  abbrev pub received : ℕ → String → AgentSession → Parsed V → Hub → Hub × List (Effect V)
  received now agent session rejected hub = (hub, [])
  received now agent session thrown hub = (hub, uncaught ∷ [])
  received now agent session (parsed report) hub = (
    record hub { registry = update_last_report agent now hub.registry },
    process_report session.server_id report ∷ [],
  )

  -- The handler of `agent:report`.
  unfoldable pub on_report : (V → Bool) → ℕ → ℕ → Json V → Hub → Hub × List (Effect V)
  unfolding get_session parse_unified_report update_last_report
  on_report is_finite now socket payload hub = elim (named (map_get socket hub.agents)) [
    | none ↦ (hub, [])
    | some agent ↦ elim (get_session agent hub.registry) [
      | none ↦ (hub, [])
      | some session ↦ received now agent session (parse_unified_report is_finite payload) hub
    ]
  ]

  abbrev pub went_offline : ℕ → Option AgentSession → List (Effect V)
  went_offline now none = []
  went_offline now (some s) =
      if s.server_id == "" then [] else server_status s.server_id offline now ∷ []

  -- The handler of `disconnect`.
  unfoldable pub on_disconnect : ℕ → ℕ → Hub → Hub × List (Effect V)
  unfolding get_session detach_session
  on_disconnect now socket hub = elim (named (map_get socket hub.agents)) [
    | none ↦ (hub, [])
    | some agent ↦ (
      record hub { registry = detach_session agent hub.registry },
      went_offline now (get_session agent hub.registry),
    )
  ]

pub data Event (V : Type 0) : Type 0 where
  register : ℕ → Json V → Event V
  report : ℕ → Json V → Event V
  disconnect : ℕ → Event V

unfoldable pub handle :
    {V : Type 0} → (V → Bool) → ℕ → String → Event V → Hub → Hub × List (Effect V)
unfolding on_register on_report on_disconnect
handle is_finite now fresh (register socket payload) hub = on_register now fresh socket payload hub
handle is_finite now fresh (report socket payload) hub = on_report is_finite now socket payload hub
handle is_finite now fresh (disconnect socket) hub = on_disconnect now socket hub
