-- ===== src/Realtime/Routing.antt =====
-- The server that a report is processed for: server/runtime/src/realtime.ts.
use pmeow.Prelude.{
  ℕ, String, Bool, List, [], some, nat_eq, string_eq, ◌≡◌, ◌≢◌, inl, inr, Option-cases, map_get,
  All,
}
use pmeow.Nodes.{AgentSession, get_session}
use pmeow.Servers.{ServerRecord, get_server_by_agent_id}
use pmeow.Protocol.Json.{Json}
use pmeow.Protocol.Parse.{Parsed, parsed, rejected, thrown, parse_unified_report}
use pmeow.Realtime.Agents.{
  Effect, Event, Hub, process_report, uncaught, register, report, disconnect, received, on_report,
  handle,
}
use pmeow.Realtime.Sessions.{
  IsConsistent, on_register-IsConsistent, on_report-IsConsistent, on_disconnect-IsConsistent,
  named-some,
}

-- The hubs that any sequence of messages and disconnects can make, from one without connections.
pub data Reach {V : Type 0} (is_finite : V → Bool) (servers : List ServerRecord)
    : Hub → Type 0 where
  start : Reach is_finite servers (record {
    agents = [];
    registry = record { sessions = []; last_report_at = [] };
    servers = servers;
  })
  next :
      (now : ℕ) (fresh : String) (e : Event V) (hub : Hub)
      → Reach is_finite servers hub
      → Reach is_finite servers (handle is_finite now fresh e hub).0

Reach-IsConsistent :
    {V : Type 0} (is_finite : V → Bool) (servers : List ServerRecord) (hub : Hub)
    → Reach is_finite servers hub
    → IsConsistent hub
unfolding handle IsConsistent get_session
Reach-IsConsistent is_finite servers _ start = λ a s k. absurd (cc k)
Reach-IsConsistent is_finite servers _ (next now fresh (register socket payload) hub r) =
    on_register-IsConsistent is_finite now fresh socket payload hub
      (Reach-IsConsistent is_finite servers hub r)
Reach-IsConsistent is_finite servers _ (next now fresh (report socket payload) hub r) =
    on_report-IsConsistent is_finite now fresh socket payload hub
      (Reach-IsConsistent is_finite servers hub r)
Reach-IsConsistent {V} is_finite servers _ (next now fresh (disconnect socket) hub r) =
    on_disconnect-IsConsistent {V = V} is_finite now fresh socket hub
      (Reach-IsConsistent is_finite servers hub r)

-- What may follow from a report of this agent: nothing but its processing for the agent's own server,
-- and an exception from its parsing.
pub IsRouted : {V : Type 0} → String → Hub → Effect V → Type 0
IsRouted agent hub (process_report sid r) =
    (x : ServerRecord) × (get_server_by_agent_id agent hub.servers ≡ some x) × (x.id ≡ sid)
IsRouted agent hub uncaught = Unit {0}
IsRouted agent hub _ = ⊥

-- After any sequence of registrations, reports and disconnects, a report on a socket where an
-- agent has registered is processed for the server that the table gives that agent, or not at all.
pub on_report-IsRouted :
    {V : Type 0} (is_finite : V → Bool) (servers : List ServerRecord) (hub : Hub) (now socket : ℕ)
    (agent : String) (payload : Json V)
    → Reach is_finite servers hub
    → agent ≢ ""
    → map_get socket hub.agents ≡ some agent
    → All (IsRouted agent hub) (on_report is_finite now socket payload hub).1
unfolding on_report IsRouted IsConsistent
on_report-IsRouted {V} is_finite servers hub now socket agent payload reach known e =
    rw (named-some _ agent known e, on_report)
      (elim (Option-cases (get_session agent hub.registry)) [
        | inl k ↦ rw (k, on_report) tt
        | inr (s, k) ↦
            rw (k, on_report)
              (go s (Reach-IsConsistent is_finite servers hub reach agent s k)
                (parse_unified_report is_finite payload))
      ])
  where
    go :
        (s : AgentSession)
        → (x : ServerRecord) × (get_server_by_agent_id agent hub.servers ≡ some x)
          × (x.id ≡ s.server_id)
        → (p : Parsed V) → All (IsRouted agent hub) (received now agent s p hub).1
    go s c rejected = tt
    go s c thrown = (tt, tt)
    go s c (parsed r) = (c, tt)
