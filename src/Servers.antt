-- ===== src/Servers.antt =====
-- The table of servers: server/core/src/db/servers.ts. The new id comes from the platform's random
-- generator. A statement that breaks the unique column `agent_id` throws, which is `none`.
use pmeow.Prelude.{
  ℕ, String, Bool, not, ◌&&◌, List, [], ◌∷◌, ◌++◌, Option, none, some, ◌==◌, string_eq,
  if◌then◌else◌, any, find, select, update_where,
}

pub record ServerRecord : Type 0 where
  pub id : String
  pub name : String
  pub agent_id : String
  pub created_at : ℕ
  pub updated_at : ℕ

pub record ServerInput : Type 0 where
  pub name : String
  pub agent_id : String

-- `Partial<ServerInput>`
pub record ServerUpdateInput : Type 0 where
  pub name : Option String
  pub agent_id : Option String

unfoldable pub get_server_by_id : String → List ServerRecord → Option ServerRecord
get_server_by_id id servers = find (λ s. s.id == id) servers

unfoldable pub get_server_by_agent_id : String → List ServerRecord → Option ServerRecord
get_server_by_agent_id agent servers = find (λ s. s.agent_id == agent) servers

abbrev pub new_server : ℕ → String → ServerInput → ServerRecord
new_server now id input = record {
  id = id;
  name = input.name;
  agent_id = input.agent_id;
  created_at = now;
  updated_at = now;
}

unfoldable pub create_server :
    ℕ → String → ServerInput → List ServerRecord → Option (List ServerRecord × ServerRecord)
create_server now id input servers =
    if any (λ s. s.agent_id == input.agent_id) servers
    then none
    else some (servers ++ new_server now id input ∷ [], new_server now id input)

abbrev pub given_or : Option String → String → String
given_or none s = s
given_or (some t) s = t

abbrev pub renamed : ℕ → ServerUpdateInput → ServerRecord → ServerRecord
renamed now input s = record s {
  name = given_or input.name s.name;
  agent_id = given_or input.agent_id s.agent_id;
  updated_at = now;
}

-- The table and the row afterwards; no row where there is no such server.
unfoldable pub update_server :
    ℕ
    → String
    → ServerUpdateInput
    → List ServerRecord
    → Option (List ServerRecord × Option ServerRecord)
unfolding get_server_by_id
update_server now id input servers = elim (get_server_by_id id servers) [
  | none ↦ some (servers, none)
  | some existing ↦
      let after = renamed now input existing in
      if any (λ s. not (s.id == id) && s.agent_id == after.agent_id) servers
      then none
      else some (update_where (λ s. s.id == id) (renamed now input) servers, some after)
]

unfoldable pub delete_server : String → List ServerRecord → List ServerRecord × Bool
delete_server id servers = (select (λ s. not (s.id == id)) servers, any (λ s. s.id == id) servers)
