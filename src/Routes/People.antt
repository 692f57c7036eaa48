-- ===== src/Routes/People.antt =====
-- `personRoutes`: server/runtime/src/routes/person-routes.ts. A body is what its fields are read as, a
-- note being none where it is not a text. `new_id` and `plain` are what the platform's random generator
-- draws, and `candidates` what `listBindingCandidates` gives. A handler that throws is answered with 500.
use mathlib.Core.Option
use pmeow.Prelude.{ℕ, String, Bool, List, [], ◌∷◌, Option, none, some, nat_eq, string_eq}
use pmeow.Persons.Records.{
  PersonRecord, PersonInput, PersonChange, new_person, create_person, update_person,
  get_person_by_id, list_persons,
}
use pmeow.Persons.Tokens.{
  PersonTokenRecord, TokenDb, get_person_token_by_id, create_person_token, revoke_person_token,
  rotate_person_token,
}
use pmeow.Persons.Bindings.{
  Principal, admin, person, PersonBindingRecord, BindingDb, BindingInput, BindingChange,
  create_binding, update_binding,
}
use pmeow.Persons.Scope.{get_bindings_by_person_id}
use pmeow.Persons.Resolve.{PersonBindingCandidate}
use pmeow.Persons.Wizard.{
  PersonDb, CreatePersonWizardInput, WizardAnswer, nameless, failed, conflicting, created,
  create_person_from_wizard,
}
use pmeow.Persons.AutoAdd.{AutoAddReport, auto_add_unassigned_users}
use pmeow.Tasks.Service.{RouteAnswer, status, answered}
use pmeow.Routes.Answers.{for_admin, for_person, found_or_404}

pub record PeopleDb : Type 0 where
  pub people : PersonDb
  pub tokens : TokenDb

abbrev pub with_bindings : PeopleDb → BindingDb → PeopleDb
with_bindings db b = record db { people = record (db.people) { bindings = b } }

abbrev pub with_persons : PeopleDb → List PersonRecord → PeopleDb
with_persons db ps = record db { people = record (db.people) { persons = ps } }

-- `sanitizeToken`: a token without its hash.
pub record SafeToken : Type 0 where
  pub id : ℕ
  pub person_id : String
  pub is_active : Bool
  pub note : Option String
  pub created_at : ℕ
  pub last_used_at : Option ℕ

abbrev pub sanitize_token : PersonTokenRecord → SafeToken
sanitize_token t = record {
  id = t.id;
  person_id = t.person_id;
  is_active = pmeow.Persons.Tokens.is_active t.status;
  note = t.note;
  created_at = t.created_at;
  last_used_at = t.last_used_at;
}

abbrev pub text_only : Option (Option String) → Option (Option String)
text_only (some (some s)) = some (some s)
text_only _ = none

-- What is taken of a body: all of it for an administrator, and two texts for a person.
abbrev pub payload : Option Principal → PersonChange → PersonChange
payload (some admin) body = body
payload _ body = record {
  display_name = none;
  email = text_only body.email;
  qq = text_only body.qq;
  note = none;
  custom_fields = none;
  status = none;
}

abbrev pub wizard_answer : WizardAnswer → RouteAnswer WizardAnswer
wizard_answer nameless = status 400
wizard_answer failed = status 400
wizard_answer (conflicting cs) = status 409
wizard_answer (created r) = answered (created r)

-- The row that a statement gives, where it does not throw.
abbrev pub bound_or {ℓ} :
    {A : Type ℓ}
    → PeopleDb
    → ℕ
    → (Option PersonBindingRecord → RouteAnswer A)
    → Option (BindingDb × Option PersonBindingRecord)
    → PeopleDb × RouteAnswer A
bound_or db code f none = (db, status code)
bound_or db code f (some r) = (with_bindings db r.0, f r.1)

abbrev pub auto_added :
    PeopleDb → Option (PersonDb × AutoAddReport) → PeopleDb × RouteAnswer AutoAddReport
auto_added db none = (db, status 500)
auto_added db (some r) = (record db { people = r.0 }, answered r.1)

module _ (trim hash_token : String → String) (name_before : String → String → Bool) where
  -- GET /persons
  unfoldable pub get_persons_route :
      Option Principal → Bool → PeopleDb → RouteAnswer (List PersonRecord)
  unfolding get_person_by_id list_persons
  get_persons_route none include_archived db = status 401
  get_persons_route (some admin) include_archived db =
      answered (list_persons name_before include_archived db.people.persons)
  get_persons_route (some (person own)) include_archived db =
      answered (elim (get_person_by_id own db.people.persons) [ none ↦ [] | some p ↦ p ∷ [] ])

  -- POST /persons
  unfoldable pub create_person_route :
      Option Principal → ℕ → String → PersonInput → PeopleDb → PeopleDb × RouteAnswer PersonRecord
  unfolding create_person
  create_person_route p now id input db = for_admin p db (
    with_persons db (create_person now id input db.people.persons),
    answered (new_person now id input),
  )

  -- POST /persons/wizard
  unfoldable pub wizard_route :
      Option Principal
      → ℕ
      → String
      → CreatePersonWizardInput
      → PeopleDb
      → PeopleDb × RouteAnswer WizardAnswer
  unfolding create_person_from_wizard
  wizard_route p now id input db =
      let made = create_person_from_wizard trim now id input db.people in
      for_admin p db (record db { people = made.0 }, wizard_answer made.1)

  -- GET /persons/:id
  unfoldable pub get_person_route :
      Option Principal → String → PeopleDb → PeopleDb × RouteAnswer PersonRecord
  unfolding get_person_by_id
  get_person_route p id db =
      for_person p id db (db, found_or_404 (get_person_by_id id db.people.persons))

  -- PUT /persons/:id
  unfoldable pub update_person_route :
      Option Principal → ℕ → String → PersonChange → PeopleDb → PeopleDb × RouteAnswer PersonRecord
  unfolding update_person
  update_person_route p now id body db =
      let changed = update_person now id (payload p body) db.people.persons in
      for_person p id db (with_persons db changed.0, found_or_404 changed.1)

  -- GET /persons/:id/bindings
  unfoldable pub get_bindings_route :
      Option Principal → String → PeopleDb → PeopleDb × RouteAnswer (List PersonBindingRecord)
  unfolding get_bindings_by_person_id
  get_bindings_route p id db =
      for_person p id db (db, answered (get_bindings_by_person_id id db.people.bindings))

  -- POST /person-bindings
  unfoldable pub create_binding_route :
      Option Principal
      → ℕ
      → BindingInput
      → PeopleDb
      → PeopleDb × RouteAnswer (Option PersonBindingRecord)
  unfolding create_binding
  create_binding_route p now input db =
      for_admin p db
        (bound_or db 409 answered (create_binding now db.people.persons input db.people.bindings))

  -- PUT /person-bindings/:id
  unfoldable pub update_binding_route :
      Option Principal
      → ℕ
      → ℕ
      → BindingChange
      → PeopleDb
      → PeopleDb × RouteAnswer PersonBindingRecord
  unfolding update_binding
  update_binding_route p now id input db = for_admin p db (
      bound_or db 500 found_or_404
        (update_binding now db.people.persons id input db.people.bindings))

  -- POST /persons/auto-add
  unfoldable pub auto_add_route :
      Option Principal
      → ℕ
      → (ℕ → String)
      → List PersonBindingCandidate
      → PeopleDb
      → PeopleDb × RouteAnswer AutoAddReport
  unfolding auto_add_unassigned_users
  auto_add_route p now new_id candidates db =
      for_admin p db
        (auto_added db (auto_add_unassigned_users name_before now new_id candidates db.people))

  -- POST /persons/:id/tokens
  unfoldable pub create_token_route :
      Option Principal
      → ℕ
      → String
      → String
      → Option String
      → PeopleDb
      → PeopleDb × RouteAnswer (SafeToken × String)
  unfolding get_person_by_id create_person_token
  create_token_route p now plain id note db =
      for_person p id db (elim (get_person_by_id id db.people.persons) [
        | none ↦ (db, status 404)
        | some owner ↦
            let made = create_person_token hash_token now plain owner.id note db.tokens in
            (record db { tokens = made.0 }, answered (sanitize_token made.1, plain))
      ])

  -- POST /person-tokens/:id/revoke
  unfoldable pub revoke_token_route :
      Option Principal → ℕ → PeopleDb → PeopleDb × RouteAnswer SafeToken
  unfolding get_person_token_by_id revoke_person_token
  revoke_token_route p id db = elim (get_person_token_by_id id db.tokens) [
    | none ↦ (db, status 404)
    | some current ↦
        let ended = revoke_person_token hash_token id db.tokens in
        for_person p current.person_id db
          (record db { tokens = ended.0 }, found_or_404 (Option.map sanitize_token ended.1))
  ]

  -- POST /person-tokens/:id/rotate
  unfoldable pub rotate_token_route :
      Option Principal
      → ℕ
      → String
      → ℕ
      → Option String
      → PeopleDb
      → PeopleDb × RouteAnswer (SafeToken × String)
  unfolding get_person_token_by_id rotate_person_token
  rotate_token_route p now plain id note db = elim (get_person_token_by_id id db.tokens) [
    | none ↦ (db, status 404)
    | some current ↦
        let made = rotate_person_token hash_token now plain id note db.tokens in
        for_person p current.person_id db (
          record db { tokens = made.0 },
          found_or_404 (Option.map (λ t. (sanitize_token t, plain)) made.1),
        )
  ]
