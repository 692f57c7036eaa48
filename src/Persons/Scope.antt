-- ===== src/Persons/Scope.antt =====
-- The servers that a person may see: server/core/src/person/scope.ts, with the list of a person's
-- bindings of server/core/src/db/person-bindings.ts.
use pmeow.Prelude.{
  String, Bool, true, not, ◌&&◌, ◌||◌, List, map, Option, none, some, ◌==◌, nat_eq, string_eq, leb,
  ltb, ◌≡◌, refl, ◌∙◌, any, select, sort, any-sort, unique, contains, contains-unique,
  contains-map-select,
}
use pmeow.Persons.Bindings.{
  PersonBindingRecord, BindingDb, Principal, admin, person, can_access_server,
}

-- ORDER BY enabled DESC, updated_at DESC, created_at DESC
abbrev pub enabled_first : PersonBindingRecord → PersonBindingRecord → Bool
enabled_first a b =
    (a.enabled && not b.enabled)
    || ((a.enabled || not b.enabled)
        && (ltb b.updated_at a.updated_at
            || (a.updated_at == b.updated_at && leb b.created_at a.created_at)))

unfoldable pub get_bindings_by_person_id : String → BindingDb → List PersonBindingRecord
unfolding sort
get_bindings_by_person_id id db = sort enabled_first (select (λ b. b.person_id == id) db.bindings)

-- None for an administrator, who is not restricted.
unfoldable pub get_accessible_server_ids : Principal → BindingDb → Option (List String)
unfolding get_bindings_by_person_id
get_accessible_server_ids admin db = none
get_accessible_server_ids (person id) db =
    some
      (unique (map (λ b. b.server_id) (select (λ b. b.enabled) (get_bindings_by_person_id id db))))

-- `accessibleServerIds === null || accessibleServerIds.includes(serverId)`
abbrev pub is_accessible : String → Option (List String) → Bool
is_accessible sid none = true
is_accessible sid (some ids) = contains sid ids

-- A server is in a principal's list of accessible servers, or the principal is not restricted,
-- exactly when the principal can access the server.
pub get_accessible_server_ids-can_access_server :
    (p : Principal) (sid : String) (db : BindingDb)
    → is_accessible sid (get_accessible_server_ids p db) ≡ can_access_server p sid db
unfolding get_accessible_server_ids can_access_server
get_accessible_server_ids-can_access_server admin sid db = refl
get_accessible_server_ids-can_access_server (person id) sid db =
    contains-unique sid
      (map (λ b. b.server_id) (select (λ b. b.enabled) (get_bindings_by_person_id id db)))
    ∙ contains-map-select sid (λ (b : PersonBindingRecord). b.enabled) (λ b. b.server_id)
        (get_bindings_by_person_id id db)
    ∙ any_bindings
  where
    any_bindings :
        any (λ b. b.server_id == sid && b.enabled) (get_bindings_by_person_id id db)
        ≡ any (λ b. b.server_id == sid && b.enabled) (select (λ b. b.person_id == id) db.bindings)
    any_bindings = any-sort enabled_first (λ b. b.server_id == sid && b.enabled) _
