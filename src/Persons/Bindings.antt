-- ===== src/Persons/Bindings.antt =====
-- Accounts on servers bound to persons: server/core/src/db/person-bindings.ts, and the access that they
-- give, server/core/src/person/scope.ts. A statement throws, which is
-- `none` here, where it breaks the unique index on enabled bindings or names a person that is not in the
-- table of persons, as the foreign key `person_id` of server/core/src/db/database.ts forbids.
use pmeow.Prelude.{
  ℕ, suc, String, Bool, true, false, not, ◌&&◌, ◌||◌, List, [], ◌∷◌, ◌++◌, Option, none, some, ◌==◌,
  nat_eq, string_eq, if◌then◌else◌, leb, ltb, any, find, select, sort, update_where, is_some,
}
use pmeow.Persons.Records.{PersonRecord, get_person_by_id}

pub data BindingSource : Type 0 where
  manual suggested synced : BindingSource

pub record PersonBindingRecord : Type 0 where
  pub id : ℕ
  pub person_id : String
  pub server_id : String
  pub system_user : String
  pub source : BindingSource
  pub enabled : Bool
  pub effective_from : Option ℕ
  pub effective_to : Option ℕ
  pub created_at : ℕ
  pub updated_at : ℕ

pub record BindingDb : Type 0 where
  pub bindings : List PersonBindingRecord
  pub next_id : ℕ

-- An option of an option is a field that may be undefined and may be null.
pub record BindingInput : Type 0 where
  pub person_id : String
  pub server_id : String
  pub system_user : String
  pub source : BindingSource
  pub enabled : Option Bool
  pub effective_from : Option (Option ℕ)
  pub effective_to : Option (Option ℕ)

pub record BindingChange : Type 0 where
  pub person_id : Option String
  pub source : Option BindingSource
  pub enabled : Option Bool
  pub effective_from : Option (Option ℕ)
  pub effective_to : Option (Option ℕ)

abbrev pub given_or {ℓ} : {A : Type ℓ} → Option A → A → A
given_or none a = a
given_or (some b) a = b

unfoldable pub get_binding_by_id : ℕ → BindingDb → Option PersonBindingRecord
get_binding_by_id id db = find (λ r. r.id == id) db.bindings

abbrev pub begun : ℕ → Option ℕ → Bool
begun now none = true
begun now (some t) = leb t now

abbrev pub not_over : ℕ → Option ℕ → Bool
not_over now none = true
not_over now (some t) = ltb now t

abbrev pub is_enabled_for : String → String → PersonBindingRecord → Bool
is_enabled_for sid user r = r.enabled && (r.server_id == sid && r.system_user == user)

abbrev pub is_active_for : ℕ → String → String → PersonBindingRecord → Bool
is_active_for now sid user r =
    is_enabled_for sid user r && (begun now r.effective_from && not_over now r.effective_to)

-- ORDER BY updated_at DESC, created_at DESC
abbrev pub later_first : PersonBindingRecord → PersonBindingRecord → Bool
later_first a b =
    ltb b.updated_at a.updated_at || (a.updated_at == b.updated_at && leb b.created_at a.created_at)

abbrev pub head_of : List PersonBindingRecord → Option PersonBindingRecord
head_of [] = none
head_of (r ∷ rs) = some r

unfoldable pub get_active_binding : ℕ → String → String → BindingDb → Option PersonBindingRecord
unfolding sort
get_active_binding now sid user db =
    head_of (sort later_first (select (is_active_for now sid user) db.bindings))

-- Another enabled row of the same account, which the unique index forbids.
abbrev pub is_rival : ℕ → String → String → PersonBindingRecord → Bool
is_rival id sid user r = not (r.id == id) && is_enabled_for sid user r

abbrev pub changed : ℕ → BindingChange → PersonBindingRecord → PersonBindingRecord
changed now input existing = record existing {
  person_id = given_or input.person_id existing.person_id;
  source = given_or input.source existing.source;
  enabled = given_or input.enabled existing.enabled;
  effective_from = given_or input.effective_from existing.effective_from;
  effective_to = given_or input.effective_to existing.effective_to;
  updated_at = now;
}

-- REFERENCES persons(id)
abbrev pub has_person : String → List PersonRecord → Bool
has_person id persons = is_some (get_person_by_id id persons)

-- The table and the row afterwards; no row where there is no such binding.
unfoldable pub update_binding :
    ℕ
    → List PersonRecord
    → ℕ
    → BindingChange
    → BindingDb
    → Option (BindingDb × Option PersonBindingRecord)
unfolding get_binding_by_id get_person_by_id
update_binding now persons id input db = elim (get_binding_by_id id db) [
  | none ↦ some (db, none)
  | some existing ↦
      if not (has_person (changed now input existing).person_id persons)
        || ((changed now input existing).enabled
            && any (is_rival id existing.server_id existing.system_user) db.bindings)
      then none
      else (let after : BindingDb = record db {
        bindings = update_where (λ r. r.id == id) (changed now input) db.bindings;
      } in
          some (after, get_binding_by_id id after))
]

abbrev pub change_of : BindingInput → BindingChange
change_of input = record {
  person_id = none;
  source = some input.source;
  enabled = input.enabled;
  effective_from = input.effective_from;
  effective_to = input.effective_to;
}

abbrev pub new_binding : ℕ → ℕ → BindingInput → PersonBindingRecord
new_binding id now input = record {
  id = id;
  person_id = input.person_id;
  server_id = input.server_id;
  system_user = input.system_user;
  source = input.source;
  enabled = given_or input.enabled true;
  effective_from = given_or input.effective_from none;
  effective_to = given_or input.effective_to none;
  created_at = now;
  updated_at = now;
}

unfoldable pub create_binding :
    ℕ
    → List PersonRecord
    → BindingInput
    → BindingDb
    → Option (BindingDb × Option PersonBindingRecord)
unfolding get_active_binding update_binding get_person_by_id
create_binding now persons input db =
    elim (get_active_binding now input.server_id input.system_user db) [
      | some existing ↦
          if existing.person_id == input.person_id
          then update_binding now persons existing.id (change_of input) db
          else none
      | none ↦
          let row = new_binding db.next_id now input in
          if not (has_person row.person_id persons)
            || (row.enabled && any (is_enabled_for input.server_id input.system_user) db.bindings)
          then none
          else some
              (record { bindings = db.bindings ++ row ∷ []; next_id = suc db.next_id }, some row)
    ]

unfoldable pub deactivate_binding :
    ℕ → List PersonRecord → ℕ → ℕ → BindingDb → Option (BindingDb × Option PersonBindingRecord)
unfolding update_binding
deactivate_binding now persons id effective_to db =
    update_binding now persons id
      (record {
        person_id = none;
        source = none;
        enabled = some false;
        effective_from = none;
        effective_to = some (some effective_to);
      })
      db

pub data Principal : Type 0 where
  admin : Principal
  person : String → Principal

unfoldable pub can_access_server : Principal → String → BindingDb → Bool
can_access_server admin sid db = true
can_access_server (person id) sid db =
    any (λ b. b.server_id == sid && b.enabled) (select (λ b. b.person_id == id) db.bindings)

unfoldable pub can_access_task : Principal → String → String → BindingDb → Bool
can_access_task admin sid user db = true
can_access_task (person id) sid user db =
    any (λ b. b.server_id == sid && (b.system_user == user && b.enabled))
      (select (λ b. b.person_id == id) db.bindings)
