-- ===== src/Nodes.antt =====
-- Agents that are connected, and when they last reported: server/core/src/node/registry.ts.
use pmeow.Prelude.{
  ℕ, String, List, Option, ◌==◌, string_eq, if◌then◌else◌, find, map, map_get, map_set, map_has,
  map_delete, map_values,
}

pub record AgentSession : Type 0 where
  pub agent_id : String
  pub server_id : String

pub record AgentSessionRegistry : Type 0 where
  pub sessions : List (String × AgentSession)
  pub last_report_at : List (String × ℕ)

unfoldable pub attach_session : ℕ → AgentSession → AgentSessionRegistry → AgentSessionRegistry
attach_session now session reg = record {
  sessions = map_set session.agent_id session reg.sessions;
  last_report_at =
      if map_has session.agent_id reg.last_report_at
      then reg.last_report_at
      else map_set session.agent_id now reg.last_report_at;
}

unfoldable pub detach_session : String → AgentSessionRegistry → AgentSessionRegistry
detach_session agent reg = record reg { sessions = map_delete agent reg.sessions }

unfoldable pub get_session : String → AgentSessionRegistry → Option AgentSession
get_session agent reg = map_get agent reg.sessions

abbrev pub get_all_sessions : AgentSessionRegistry → List AgentSession
get_all_sessions reg = map_values reg.sessions

unfoldable pub get_session_by_server_id : String → AgentSessionRegistry → Option AgentSession
get_session_by_server_id sid reg = find (λ s. s.server_id == sid) (get_all_sessions reg)

unfoldable pub update_last_report : String → ℕ → AgentSessionRegistry → AgentSessionRegistry
update_last_report agent timestamp reg = record reg {
  last_report_at = map_set agent timestamp reg.last_report_at;
}

unfoldable pub get_last_report_at : String → AgentSessionRegistry → Option ℕ
get_last_report_at agent reg = map_get agent reg.last_report_at

abbrev pub get_online_server_ids : AgentSessionRegistry → List String
get_online_server_ids reg = map (λ s. s.server_id) (get_all_sessions reg)
