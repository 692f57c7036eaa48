-- ===== src/Realtime/Sessions.antt =====
-- The sessions that the handlers keep: server/runtime/src/realtime.ts.

use pmeow.Prelude.{
  ℕ, String, Bool, false, List, [], ◌∷◌, ◌++◌, Option, none, some, ◌==◌, nat_eq, string_eq, eq_iff,
  ◌≡◌, ◌≢◌, refl, arith, ap, ◌∙◌, inl, inr, Bool-cases, Option-cases, map_get, map_get-map_set,
  map_get-map_delete, find, find-append_one, any, subst,
}
use pmeow.Nodes.{AgentSession, attach_session, detach_session, get_session, update_last_report}
use pmeow.Servers.{ServerRecord, get_server_by_agent_id, create_server, new_server}
use pmeow.Protocol.Json.{Json, get}
use pmeow.Protocol.Guards.{is_agent_register_payload}
use pmeow.Protocol.Parse.{Parsed, parsed, rejected, thrown, parse_unified_report}
use pmeow.Realtime.Agents.{
  Hub, text_of, attached, received, named, on_register, on_report, on_disconnect,
}

pub named-some :
    (o : Option String) (agent : String) → agent ≢ "" → o ≡ some agent → named o ≡ some agent
named-some none agent h e = absurd (cc e)
named-some (some a) agent h e = ground (arith, h, e, eq_iff a "")

-- The server of each session is the row of the session's agent.
unfoldable pub IsConsistent : Hub → Type 0
IsConsistent hub =
    (agent : String) (s : AgentSession)
    → get_session agent hub.registry ≡ some s
    → (r : ServerRecord) × (get_server_by_agent_id agent hub.servers ≡ some r)
      × (r.id ≡ s.server_id)

attached-IsConsistent :
    (now socket : ℕ) (agent : String) (r : ServerRecord) (hub : Hub)
    → get_server_by_agent_id agent hub.servers ≡ some r
    → IsConsistent hub
    → IsConsistent (attached now socket agent r.id hub)
unfolding get_session attach_session IsConsistent
attached-IsConsistent now socket agent r hub found c a s e =
    let session : AgentSession = record { agent_id = agent; server_id = r.id } in
    let law = map_get-map_set agent a session hub.registry.sessions in
    elim (Bool-cases (agent == a)) [
      | inl t ↦
          let same : session ≡ s = ground (arith, law, e, t) in
          (
            r,
            subst (λ x. get_server_by_agent_id x hub.servers ≡ some r) ((eq_iff agent a).0 t) found,
            ap (λ x. x.server_id) same,
          )
      | inr f ↦ c a s (ground (arith, law, e, f))
    ]

-- A new server takes no agent's place.
create_server-keeps :
    (now : ℕ) (fresh name agent : String) (servers : List ServerRecord)
    → get_server_by_agent_id agent servers ≡ none
    → create_server now fresh (record { name = name; agent_id = agent }) servers
      ≡ some (
        servers ++ new_server now fresh (record { name = name; agent_id = agent }) ∷ [],
        new_server now fresh (record { name = name; agent_id = agent }),
      )
unfolding create_server get_server_by_agent_id
create_server-keeps now fresh name agent servers h = rw (absent servers h) refl
  where
    absent :
        (xs : List ServerRecord)
        → find (λ s. s.agent_id == agent) xs ≡ none
        → any (λ s. s.agent_id == agent) xs ≡ false
    absent [] k = refl
    absent (x ∷ xs) k = ground (arith, absent xs)

added-IsConsistent :
    (hub : Hub) (r : ServerRecord)
    → IsConsistent hub
    → IsConsistent (record hub { servers = hub.servers ++ r ∷ [] })
unfolding get_server_by_agent_id IsConsistent
added-IsConsistent hub r c a s e =
    let (x, found, same) = c a s e in
    (x, find-append_one (λ y. y.agent_id == a) hub.servers r ∙ ground (arith, found), same)

get_server-added :
    (agent : String) (servers : List ServerRecord) (r : ServerRecord)
    → get_server_by_agent_id agent servers ≡ none
    → r.agent_id ≡ agent
    → get_server_by_agent_id agent (servers ++ r ∷ []) ≡ some r
unfolding get_server_by_agent_id
get_server-added agent servers r h e =
    find-append_one (λ y. y.agent_id == agent) servers r
    ∙ ground (arith, h, e, eq_iff r.agent_id agent)

module _ {V : Type 0} (is_finite : V → Bool) (now : ℕ) (fresh : String) where
  pub on_register-IsConsistent :
      (socket : ℕ) (payload : Json V) (hub : Hub)
      → IsConsistent hub
      → IsConsistent (on_register now fresh socket payload hub).0
  unfolding on_register
  on_register-IsConsistent socket payload hub c =
      elim (Bool-cases (is_agent_register_payload payload)) [
        | inr bad ↦ rw bad c
        | inl good ↦
            rw good
              (elim (Option-cases
                (get_server_by_agent_id (text_of (get "agentId" payload)) hub.servers)) [
                  | inr (r, e) ↦ rw (e, on_register) (attached-IsConsistent now socket _ r hub e c)
                  | inl e ↦
                      rw (e, on_register)
                        (rw
                          (create_server-keeps now fresh (text_of (get "hostname" payload))
                            (text_of (get "agentId" payload)) hub.servers e)
                          (attached-IsConsistent now socket _ _ _
                            (get_server-added _ hub.servers _ e refl) (added-IsConsistent hub _ c)))
                ])
      ]

  pub on_report-IsConsistent :
      (socket : ℕ) (payload : Json V) (hub : Hub)
      → IsConsistent hub
      → IsConsistent (on_report is_finite now socket payload hub).0
  unfolding on_report IsConsistent update_last_report get_session
  on_report-IsConsistent socket payload hub c =
      elim (Option-cases (named (map_get socket hub.agents))) [
        | inl e ↦ rw (e, on_report) c
        | inr (agent, e) ↦
            rw (e, on_report)
              (elim (Option-cases (get_session agent hub.registry)) [
                | inl k ↦ rw (k, on_report) c
                | inr (s, k) ↦
                    rw (k, on_report) (go agent s (parse_unified_report is_finite payload))
              ])
      ]
    where
      go :
          (agent : String) (s : AgentSession) (p : Parsed V)
          → IsConsistent (received now agent s p hub).0
      go agent s rejected = c
      go agent s thrown = c
      go agent s (parsed r) = c

  pub on_disconnect-IsConsistent :
      (socket : ℕ) (hub : Hub)
      → IsConsistent hub
      → IsConsistent (on_disconnect {V = V} now socket hub).0
  unfolding on_disconnect IsConsistent detach_session get_session
  on_disconnect-IsConsistent socket hub c =
      elim (Option-cases (named (map_get socket hub.agents))) [
        | inl e ↦ rw (e, on_disconnect) c
        | inr (agent, e) ↦
            rw (e, on_disconnect)
              (λ a s k. c a s (ground (arith, k, map_get-map_delete agent a hub.registry.sessions)))
      ]
