-- ===== src/Realtime/Examples.antt =====
-- Two sockets of one agent, and two users who watch.
use pmeow.Prelude.{
  contains, ℕ, Bool, true, String, List, [], ◌∷◌, none, some, ◌≡◌, ◌≢◌, eq_iff, string_eq, refl,
  All, map_get, nat_eq,
}
use pmeow.Protocol.Json.{Json, no_items, object, field, no_fields, text}
use pmeow.Protocol.Samples.{report_with}
use pmeow.Persons.Bindings.{BindingDb, admin, person, manual}
use pmeow.Realtime.Agents.{Hub, register, report, handle, on_report, on_disconnect}
use pmeow.Realtime.Dropped.{Arrival, handle_all, on_disconnect-drops}
use pmeow.Realtime.Routing.{start, next, IsRouted, on_report-IsRouted}
use pmeow.Realtime.Broadcast.{
  UiSocket, task_event, metrics_update, alert_state_change, broadcasts_nest,
}

abbrev hello : Json ℕ
hello = object (field "agentId" (text "a") (field "hostname" (text "host") no_fields))

abbrev finite : ℕ → Bool
finite n = true

abbrev empty : Hub
empty = record {
  agents = [];
  registry = record { sessions = []; last_report_at = [] };
  servers = [];
}

abbrev once : Hub
once = (handle finite 5 "s1" (register 1 hello) empty).0

abbrev twice : Hub
twice = (handle finite 6 "s2" (register 2 hello) once).0

a_not_empty : ◌≢◌ {A = String} "a" ""
a_not_empty e = cc ((eq_iff {A = String} "a" "").1 e)

abbrev sample : Json ℕ
sample = report_with no_items

twice_agents : (map_get 1 twice.agents ≡ some "a") × (map_get 2 twice.agents ≡ some "a")
unfolding handle
twice_agents = (refl, refl)

-- Another agent connects meanwhile, and the newer socket reports once.
abbrev other_hello : Json ℕ
other_hello = object (field "agentId" (text "b") (field "hostname" (text "other") no_fields))

abbrev meanwhile : List (Arrival ℕ)
meanwhile =
    record { now = 9; fresh = "s3"; event = register 3 other_hello }
    ∷ record { now = 10; fresh = ""; event = report 2 sample }
    ∷ []

on_disconnect-drops_example :
    on_report finite 11 2 sample (handle_all finite meanwhile (on_disconnect {V = ℕ} 8 1 twice).0)
    ≡ (handle_all finite meanwhile (on_disconnect {V = ℕ} 8 1 twice).0, [])
on_disconnect-drops_example =
    on_disconnect-drops finite 2 "a" 8 11 1 sample meanwhile twice a_not_empty twice_agents.0
      twice_agents.1 ((refl, refl), (tt, tt))

on_report-IsRouted_example : All (IsRouted "a" twice) (on_report finite 9 2 sample twice).1
on_report-IsRouted_example =
    on_report-IsRouted finite [] twice 9 2 "a" sample
      (next 6 "s2" (register 2 hello) once (next 5 "s1" (register 1 hello) empty start)) a_not_empty
      twice_agents.1

abbrev one_binding : BindingDb
one_binding = record {
  bindings =
      record {
        id = 1;
        person_id = "p";
        server_id = "s1";
        system_user = "ann";
        source = manual;
        enabled = true;
        effective_from = none;
        effective_to = none;
        created_at = 1;
        updated_at = 1;
      }
      ∷ [];
  next_id = 2;
}

abbrev watchers : List UiSocket
watchers =
    record { socket = 1; principal = some admin }
    ∷ record { socket = 2; principal = some (person "p") }
    ∷ record { socket = 3; principal = some (person "q") }
    ∷ []

broadcasts_nest_example :
    All
      (λ n. contains n (task_event one_binding watchers "s1" "ann") ≡ true)
      (alert_state_change one_binding watchers)
    × All
        (λ n. contains n (metrics_update one_binding watchers "s1") ≡ true)
        (task_event one_binding watchers "s1" "ann")
broadcasts_nest_example = broadcasts_nest one_binding watchers "s1" "ann"
