-- ===== src/Persons/Records.antt =====
-- Persons: server/core/src/db/persons.ts. The order of names is SQLite's, and a new id comes from the
-- platform's random generator. Custom fields are kept as their text.
use pmeow.Prelude.{
  ℕ, String, Bool, true, false, List, [], ◌∷◌, ◌++◌, Option, none, some, ◌==◌, string_eq,
  if◌then◌else◌, find, select, sort, update_where,
}

pub data PersonStatus : Type 0 where
  active archived : PersonStatus

abbrev pub is_active : PersonStatus → Bool
is_active active = true
is_active archived = false

pub record PersonRecord : Type 0 where
  pub id : String
  pub display_name : String
  pub email : Option String
  pub qq : Option String
  pub note : Option String
  pub custom_fields : String
  pub status : PersonStatus
  pub created_at : ℕ
  pub updated_at : ℕ

-- A field of an input: `undefined`, or given as null or a text.
pub record PersonInput : Type 0 where
  pub display_name : String
  pub email : Option (Option String)
  pub qq : Option (Option String)
  pub note : Option (Option String)
  pub custom_fields : Option String

pub record PersonChange : Type 0 where
  pub display_name : Option String
  pub email : Option (Option String)
  pub qq : Option (Option String)
  pub note : Option (Option String)
  pub custom_fields : Option String
  pub status : Option PersonStatus

abbrev pub given_or {ℓ} : {A : Type ℓ} → Option A → A → A
given_or none a = a
given_or (some b) a = b

abbrev pub new_person : ℕ → String → PersonInput → PersonRecord
new_person now id input = record {
  id = id;
  display_name = input.display_name;
  email = given_or input.email none;
  qq = given_or input.qq none;
  note = given_or input.note none;
  custom_fields = given_or input.custom_fields "{}";
  status = active;
  created_at = now;
  updated_at = now;
}

unfoldable pub create_person : ℕ → String → PersonInput → List PersonRecord → List PersonRecord
create_person now id input persons = persons ++ new_person now id input ∷ []

unfoldable pub get_person_by_id : String → List PersonRecord → Option PersonRecord
get_person_by_id id persons = find (λ p. p.id == id) persons

unfoldable pub list_persons :
    (String → String → Bool) → Bool → List PersonRecord → List PersonRecord
unfolding sort
list_persons name_before include_archived persons =
    sort (λ p q. name_before p.display_name q.display_name)
      (if include_archived then persons else select (λ p. is_active p.status) persons)

abbrev pub changed_person : ℕ → PersonChange → PersonRecord → PersonRecord
changed_person now input p = record p {
  display_name = given_or input.display_name p.display_name;
  email = given_or input.email p.email;
  qq = given_or input.qq p.qq;
  note = given_or input.note p.note;
  custom_fields = given_or input.custom_fields p.custom_fields;
  status = given_or input.status p.status;
  updated_at = now;
}

-- The table and the row afterwards; no row where there is no such person.
unfoldable pub update_person :
    ℕ → String → PersonChange → List PersonRecord → List PersonRecord × Option PersonRecord
unfolding get_person_by_id
update_person now id input persons = elim (get_person_by_id id persons) [
  | none ↦ (persons, none)
  | some existing ↦
      let after = update_where (λ p. p.id == id) (changed_person now input) persons in
      (after, get_person_by_id id after)
]
