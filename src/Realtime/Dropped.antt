-- ===== src/Realtime/Dropped.antt =====
-- Reports that are ignored after the disconnect of another socket: server/runtime/src/realtime.ts.
use pmeow.Prelude.{
  ℕ, String, Bool, false, List, [], ◌∷◌, none, some, ◌==◌, nat_eq, string_eq, eq_refl, ◌≡◌, ◌≢◌,
  refl, arith, ◌∙◌, inl, inr, Bool-cases, Option-cases, All, map_get, map_get-map_set,
  map_get-map_delete,
}
use pmeow.Nodes.{AgentSession, attach_session, detach_session, get_session, update_last_report}
use pmeow.Servers.{get_server_by_agent_id, create_server}
use pmeow.Protocol.Json.{Json, get}
use pmeow.Protocol.Guards.{is_agent_register_payload}
use pmeow.Protocol.Parse.{Parsed, parsed, rejected, thrown, parse_unified_report}
use pmeow.Realtime.Agents.{
  Hub, Event, register, report, disconnect, text_of, attached, received, named, on_register,
  on_report, on_disconnect, handle,
}
use pmeow.Realtime.Sessions.{named-some}

-- An event with its time and the id that a new server would get.
pub record Arrival (V : Type 0) : Type 0 where
  pub now : ℕ
  pub fresh : String
  pub event : Event V

unfoldable pub handle_all : {V : Type 0} → (V → Bool) → List (Arrival V) → Hub → Hub
unfolding handle
handle_all is_finite [] hub = hub
handle_all is_finite (a ∷ rest) hub =
    handle_all is_finite rest (handle is_finite a.now a.fresh a.event hub).0

-- The event registers nothing on this socket, and this agent nowhere.
abbrev pub IsElsewhere : {V : Type 0} → ℕ → String → Event V → Type 0
IsElsewhere socket agent (register s payload) =
    ((s == socket) ≡ false) × ((text_of (get "agentId" payload) == agent) ≡ false)
IsElsewhere socket agent _ = Unit {0}

-- The socket knows its agent, which has no session.
abbrev IsDeaf : ℕ → String → Hub → Type 0
IsDeaf socket agent hub =
    (map_get socket hub.agents ≡ some agent) × (get_session agent hub.registry ≡ none)

module _ {V : Type 0} (is_finite : V → Bool) (now socket : ℕ) (agent : String) where
  on_report-IsDeaf_ignored :
      (payload : Json V) (hub : Hub)
      → agent ≢ ""
      → IsDeaf socket agent hub
      → on_report is_finite now socket payload hub ≡ (hub, [])
  unfolding on_report
  on_report-IsDeaf_ignored payload hub known (e, gone) =
      rw (named-some _ agent known e, on_report) (rw (gone, on_report) refl)

  attached-IsDeaf :
      (s : ℕ) (other sid : String) (hub : Hub)
      → (s == socket) ≡ false
      → (other == agent) ≡ false
      → IsDeaf socket agent hub
      → IsDeaf socket agent (attached now s other sid hub)
  unfolding get_session attach_session
  attached-IsDeaf s other sid hub f g (e, gone) = (
    ground (arith, map_get-map_set s socket other hub.agents, f, e),
    ground (
      arith,
      map_get-map_set other agent (record { agent_id = other; server_id = sid })
          hub.registry.sessions,
      g,
      gone,
    ),
  )

  on_register-IsDeaf :
      (fresh : String) (s : ℕ) (payload : Json V) (hub : Hub)
      → (s == socket) ≡ false
      → (text_of (get "agentId" payload) == agent) ≡ false
      → IsDeaf socket agent hub
      → IsDeaf socket agent (on_register now fresh s payload hub).0
  unfolding on_register
  on_register-IsDeaf fresh s payload hub f g d =
      let other = text_of (get "agentId" payload) in
      elim (Bool-cases (is_agent_register_payload payload)) [
        | inr bad ↦ rw bad d
        | inl good ↦ rw good (elim (Option-cases (get_server_by_agent_id other hub.servers)) [
          | inr (r, e) ↦ rw (e, on_register) (attached-IsDeaf s other r.id hub f g d)
          | inl e ↦
              rw (e, on_register)
                (elim (Option-cases (
                  create_server now fresh
                    (record { name = text_of (get "hostname" payload); agent_id = other })
                    hub.servers)) [
                      | inl n ↦
                          rw (n, on_register)
                            (ground (arith, map_get-map_set s socket other hub.agents, f, d.0), d.1)
                      | inr (made, n) ↦
                          rw (n, on_register)
                            (attached-IsDeaf s other made.1.id (record hub { servers = made.0 }) f g
                              d)
                    ])
        ])
      ]

  on_report-IsDeaf :
      (s : ℕ) (payload : Json V) (hub : Hub)
      → IsDeaf socket agent hub
      → IsDeaf socket agent (on_report is_finite now s payload hub).0
  unfolding on_report update_last_report get_session
  on_report-IsDeaf s payload hub d = elim (Option-cases (named (map_get s hub.agents))) [
    | inl e ↦ rw (e, on_report) d
    | inr (a, e) ↦
        rw (e, on_report)
          (elim (Option-cases (get_session a hub.registry)) [
            | inl k ↦ rw (k, on_report) d
            | inr (x, k) ↦ rw (k, on_report) (go a x (parse_unified_report is_finite payload))
          ])
  ]
    where
      go :
          (a : String) (x : AgentSession) (p : Parsed V)
          → IsDeaf socket agent (received now a x p hub).0
      go a x rejected = d
      go a x thrown = d
      go a x (parsed r) = d

  on_disconnect-IsDeaf :
      (s : ℕ) (hub : Hub)
      → IsDeaf socket agent hub
      → IsDeaf socket agent (on_disconnect {V = V} now s hub).0
  unfolding on_disconnect detach_session get_session
  on_disconnect-IsDeaf s hub (e, gone) = elim (Option-cases (named (map_get s hub.agents))) [
    | inl n ↦ rw (n, on_disconnect) (e, gone)
    | inr (a, n) ↦
        rw (n, on_disconnect)
          (e, ground (arith, map_get-map_delete a agent hub.registry.sessions, gone))
  ]

  -- The disconnect of a socket of the same agent.
  on_disconnect-makes_IsDeaf :
      (old : ℕ) (hub : Hub)
      → agent ≢ ""
      → map_get old hub.agents ≡ some agent
      → map_get socket hub.agents ≡ some agent
      → IsDeaf socket agent (on_disconnect {V = V} now old hub).0
  unfolding on_disconnect detach_session get_session
  on_disconnect-makes_IsDeaf old hub known first second =
      rw (named-some _ agent known first, on_disconnect)
        (
          second,
          map_get-map_delete agent agent hub.registry.sessions ∙ ground (arith, eq_refl agent),
        )

  handle-IsDeaf :
      (fresh : String) (e : Event V) (hub : Hub)
      → IsElsewhere socket agent e
      → IsDeaf socket agent hub
      → IsDeaf socket agent (handle is_finite now fresh e hub).0
  unfolding handle
  handle-IsDeaf fresh (register s payload) hub (f, g) d =
      on_register-IsDeaf fresh s payload hub f g d
  handle-IsDeaf fresh (report s payload) hub q d = on_report-IsDeaf s payload hub d
  handle-IsDeaf fresh (disconnect s) hub q d = on_disconnect-IsDeaf s hub d

module _ {V : Type 0} (is_finite : V → Bool) (socket : ℕ) (agent : String) where
  handle_all-IsDeaf :
      (arrivals : List (Arrival V)) (hub : Hub)
      → All (λ a. IsElsewhere socket agent a.event) arrivals
      → IsDeaf socket agent hub
      → IsDeaf socket agent (handle_all is_finite arrivals hub)
  unfolding handle_all
  handle_all-IsDeaf [] hub q d = d
  handle_all-IsDeaf (a ∷ rest) hub (q, qs) d =
      handle_all-IsDeaf rest _ qs
        (handle-IsDeaf is_finite a.now socket agent a.fresh a.event hub q d)

  -- Where two sockets have registered the same agent, whose name is not empty, after the
  -- disconnect of one every report of the other is ignored, also after any sequence of events in
  -- which that agent registers nowhere and nothing registers on the other socket.
  pub on_disconnect-drops :
      (now later old : ℕ) (payload : Json V) (arrivals : List (Arrival V)) (hub : Hub)
      → agent ≢ ""
      → map_get old hub.agents ≡ some agent
      → map_get socket hub.agents ≡ some agent
      → All (λ a. IsElsewhere socket agent a.event) arrivals
      → on_report is_finite later socket payload
          (handle_all is_finite arrivals (on_disconnect {V = V} now old hub).0)
        ≡ (handle_all is_finite arrivals (on_disconnect {V = V} now old hub).0, [])
  on_disconnect-drops now later old payload arrivals hub known first second elsewhere =
      on_report-IsDeaf_ignored is_finite later socket agent payload _ known (
        handle_all-IsDeaf arrivals _ elsewhere (
          on_disconnect-makes_IsDeaf {V = V} is_finite now socket agent old hub known first second))
