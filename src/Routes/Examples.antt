-- ===== src/Routes/Examples.antt =====
-- The routes for a person with one account.
use pmeow.Prelude.{
  ℕ, String, Bool, true, false, List, [], ◌∷◌, map, none, some, ◌≡◌, ◌≢◌, arith, contains,
  string_eq,
}
use pmeow.Nodes.{AgentSessionRegistry}
use pmeow.Ingest.Examples.{report, empty}
use pmeow.Ingest.Pipeline.{IngestPipeline}
use pmeow.Persons.Records.{new_person}
use pmeow.Persons.AutoAdd.{only_name}
use pmeow.Persons.Tokens.{PersonTokenRecord, active}
use pmeow.Persons.Bindings.{PersonBindingRecord, BindingDb, person, manual, can_access_server}
use pmeow.Servers.{ServerRecord, new_server}
use pmeow.Routes.People.{PeopleDb}
use pmeow.Routes.Requests.{post_rotate, serve}
use pmeow.Routes.Kept.{Kept}
use pmeow.Routes.Protected.{serve-Kept}
use pmeow.Routes.Machines.{
  get_servers_route, get_statuses_route, get_latest_route, get_history_route,
}
use pmeow.Routes.Visible.{rows_of, is_refused, machine_routes-can_access_server}

abbrev anns : PersonBindingRecord
anns = record {
  id = 1;
  person_id = "ann";
  server_id = "s";
  system_user = "ann";
  source = manual;
  enabled = true;
  effective_from = none;
  effective_to = none;
  created_at = 1;
  updated_at = 1;
}

abbrev one_binding : BindingDb
one_binding = record { bindings = anns ∷ []; next_id = 2 }

abbrev token : ℕ → String → PersonTokenRecord
token id owner = record {
  id = id;
  person_id = owner;
  token_hash = owner;
  status = active;
  note = none;
  created_at = 1;
  last_used_at = none;
}

abbrev two_people : PeopleDb
two_people = record {
  people = record {
    persons = new_person 1 "ann" (only_name "Ann") ∷ new_person 1 "bob" (only_name "Bob") ∷ [];
    bindings = one_binding;
  };
  tokens = record { tokens = token 1 "ann" ∷ token 2 "bob" ∷ []; next_id = 3 };
}

abbrev same : String → String
same s = s

abbrev any_order : String → String → Bool
any_order a b = true

one_two : ◌≢◌ {A = ℕ} 1 2
one_two e = ground arith

-- Ann rotates her token.
serve-Kept_example :
    Kept "ann" two_people
      (serve same same any_order (some (person "ann")) 9 (post_rotate "new" 1 none) two_people)
serve-Kept_example =
    serve-Kept same same any_order "ann" 9 (post_rotate "new" 1 none) two_people
      ((one_two, tt), (tt, tt))

abbrev reported : IngestPipeline ℕ ℕ ℕ
reported = record empty { latest_reports = ("s", report 1) ∷ ("t", report 2) ∷ [] }

abbrev two_servers : List ServerRecord
two_servers =
    new_server 1 "s" (record { name = "first"; agent_id = "a" })
    ∷ new_server 1 "t" (record { name = "second"; agent_id = "b" })
    ∷ []

abbrev no_sessions : AgentSessionRegistry
no_sessions = record { sessions = []; last_report_at = [] }

machine_routes-can_access_server_example :
    (contains "t" (
        map
          (λ s. s.id)
          (rows_of
            (get_servers_route same any_order (some (person "ann")) two_servers one_binding)))
      ≡ false)
    × (contains "t" (
          map
            (λ e. e.0)
            (rows_of (
              get_statuses_route same any_order
                (some (person "ann"))
                no_sessions
                two_servers
                one_binding)))
        ≡ false)
    × (contains "t"
          (map (λ e. e.0) (rows_of (get_latest_route (some (person "ann")) reported one_binding)))
        ≡ false)
    × (is_refused
          (get_history_route (some (person "ann")) 9 "t" none none none reported one_binding)
        ≡ true)
unfolding can_access_server
machine_routes-can_access_server_example =
    machine_routes-can_access_server same any_order (person "ann") "t" 9 none none none no_sessions
      two_servers one_binding reported
