-- ===== src/Routes/Protected.antt =====
-- What a person can change through server/runtime/src/routes/person-routes.ts.

use pmeow.Prelude.{
  ℕ, String, Bool, List, map, Option, some, select, ◌==◌, nat_eq, string_eq, eq_iff, ◌≡◌, refl, sym,
  ◌∙◌, inl, inr, Bool-cases, Option-cases, Distinct, find_holds, update_where, or_else, subst,
}
use pmeow.Persons.Records.{
  PersonRecord, PersonChange, changed_person, update_person, get_person_by_id,
}
use pmeow.Persons.Tokens.{
  PersonTokenRecord, TokenDb, get_person_token_by_id, create_person_token, revoke_person_token,
  rotate_person_token, revoke, update_id, new_token,
}
use pmeow.Persons.Bindings.{person}
use pmeow.Tasks.Service.{RouteAnswer}
use pmeow.Routes.Answers.{for_person}
use pmeow.Routes.People.{
  PeopleDb, with_persons, payload, create_person_route, wizard_route, update_person_route,
  create_binding_route, update_binding_route, auto_add_route, create_token_route,
  revoke_token_route, rotate_token_route,
}
use pmeow.Routes.Requests.{
  PeopleRequest, serve, post_person, post_wizard, put_person, post_binding, put_binding,
  post_auto_add, post_token, post_revoke, post_rotate,
}
use pmeow.Routes.Kept.{
  identity, is_other, is_foreign, Kept, Kept-self, identities-update, select-append_other,
  other-own, others-update, tokens-update,
}

module _ (trim hash_token : String → String) (name_before : String → String → Bool) (own : String)
    (now : ℕ) where
  -- A handler that asks for access to a person.
  for_person-Kept {ℓ} :
      {A : Type ℓ} (id : String) (db : PeopleDb) (r : PeopleDb × RouteAnswer A)
      → (id ≡ own → Kept own db r.0)
      → Kept own db (for_person (some (person own)) id db r).0
  for_person-Kept id db r h = elim (Bool-cases (own == id)) [
    | inr f ↦ rw f (Kept-self own db)
    | inl e ↦ rw e (h (sym ((eq_iff own id).0 e)))
  ]

  persons-Kept :
      (db : PeopleDb) (ps : List PersonRecord)
      → map identity ps ≡ map identity db.people.persons
      → select (is_other own) ps ≡ select (is_other own) db.people.persons
      → Kept own db (with_persons db ps)
  persons-Kept db ps i o = record { bindings = refl; identities = i; others = o; tokens = refl }

  tokens-Kept :
      (db : PeopleDb) (ts : TokenDb)
      → select (is_foreign own) ts.tokens ≡ select (is_foreign own) db.tokens.tokens
      → Kept own db (record db { tokens = ts })
  tokens-Kept db ts h = record { bindings = refl; identities = refl; others = refl; tokens = h }

  update_person-Kept :
      (id : String) (body : PersonChange) (db : PeopleDb)
      → id ≡ own
      → Kept own db (
          with_persons db
            (update_person now id (payload (some (person own)) body) db.people.persons).0)
  unfolding update_person
  update_person-Kept id body db e = elim (Option-cases (get_person_by_id id db.people.persons)) [
    | inl n ↦ rw (n, update_person) (Kept-self own db)
    | inr (p, n) ↦
        rw (n, update_person)
          (persons-Kept db _ (identities-update now own id body db.people.persons) (
            subst
              (λ i.
                select (is_other own) (
                  update_where (λ p. p.id == i)
                    (changed_person now (payload (some (person own)) body)) db.people.persons)
                ≡ select (is_other own) db.people.persons)
              (sym e) (others-update own now (payload (some (person own)) body) db.people.persons)))
  ]

  put_person-Kept :
      (id : String) (body : PersonChange) (db : PeopleDb)
      → Kept own db
          (update_person_route trim hash_token name_before (some (person own)) now id body db).0
  unfolding update_person_route
  put_person-Kept id body db = for_person-Kept id db _ (update_person-Kept id body db)

  post_token-Kept :
      (plain id : String) (note : Option String) (db : PeopleDb)
      → Kept own db
          (create_token_route trim hash_token name_before
            (some (person own))
            now
            plain
            id
            note
            db).0
  unfolding create_token_route create_person_token get_person_by_id
  post_token-Kept plain id note db = elim (Option-cases (get_person_by_id id db.people.persons)) [
    | inl n ↦ rw (n, create_token_route) (for_person-Kept id db _ (λ e. Kept-self own db))
    | inr (p, n) ↦
        rw (n, create_token_route)
          (for_person-Kept id db _ (λ e. tokens-Kept db _ (
            select-append_other (is_foreign own) db.tokens.tokens
              (new_token hash_token db.tokens.next_id now plain p.id note)
              (other-own own p.id
                ((eq_iff p.id id).0 (find_holds (λ x. x.id == id) db.people.persons p n) ∙ e)))))
  ]

  revoked_tokens :
      (id : ℕ) (t : PersonTokenRecord) (db : TokenDb)
      → Distinct (λ r. r.id) db.tokens
      → get_person_token_by_id id db ≡ some t
      → t.person_id ≡ own
      → select (is_foreign own) (revoke_person_token hash_token id db).0.tokens
        ≡ select (is_foreign own) db.tokens
  unfolding revoke_person_token
  revoked_tokens id t db distinct n owned =
      rw (n, revoke_person_token) (tokens-update own revoke id t db (λ r. refl) distinct n owned)

  rotated_tokens :
      (plain : String) (id : ℕ) (note : Option String) (t : PersonTokenRecord) (db : TokenDb)
      → Distinct (λ r. r.id) db.tokens
      → get_person_token_by_id id db ≡ some t
      → t.person_id ≡ own
      → select (is_foreign own) (rotate_person_token hash_token now plain id note db).0.tokens
        ≡ select (is_foreign own) db.tokens
  unfolding rotate_person_token create_person_token
  rotated_tokens plain id note t db distinct n owned =
      rw (n, rotate_person_token)
        (select-append_other (is_foreign own) (update_id id revoke db).tokens
            (new_token hash_token db.next_id now plain t.person_id (or_else note t.note))
            (other-own own t.person_id owned)
          ∙ tokens-update own revoke id t db (λ r. refl) distinct n owned)

  post_revoke-Kept :
      (id : ℕ) (db : PeopleDb)
      → Distinct (λ t. t.id) db.tokens.tokens
      → Kept own db (revoke_token_route trim hash_token name_before (some (person own)) id db).0
  unfolding revoke_token_route
  post_revoke-Kept id db distinct = elim (Option-cases (get_person_token_by_id id db.tokens)) [
    | inl n ↦ rw (n, revoke_token_route) (Kept-self own db)
    | inr (t, n) ↦
        rw (n, revoke_token_route)
          (for_person-Kept t.person_id db _
            (λ owned. tokens-Kept db _ (revoked_tokens id t db.tokens distinct n owned)))
  ]

  post_rotate-Kept :
      (plain : String) (id : ℕ) (note : Option String) (db : PeopleDb)
      → Distinct (λ t. t.id) db.tokens.tokens
      → Kept own db
          (rotate_token_route trim hash_token name_before
            (some (person own))
            now
            plain
            id
            note
            db).0
  unfolding rotate_token_route
  post_rotate-Kept plain id note db distinct =
      elim (Option-cases (get_person_token_by_id id db.tokens)) [
        | inl n ↦ rw (n, rotate_token_route) (Kept-self own db)
        | inr (t, n) ↦
            rw (n, rotate_token_route)
              (for_person-Kept t.person_id db _ (λ owned.
                tokens-Kept db _ (rotated_tokens plain id note t db.tokens distinct n owned)))
      ]

  -- Where token ids are distinct, no request of a person to a route that writes changes a binding,
  -- a row of another person, a token of another person, or the id, name, note, custom fields and
  -- status of any person.
  pub serve-Kept :
      (request : PeopleRequest) (db : PeopleDb)
      → Distinct (λ t. t.id) db.tokens.tokens
      → Kept own db (serve trim hash_token name_before (some (person own)) now request db)
  unfolding serve create_person_route wizard_route create_binding_route update_binding_route
      auto_add_route
  serve-Kept (post_person id input) db distinct = Kept-self own db
  serve-Kept (post_wizard id input) db distinct = Kept-self own db
  serve-Kept (put_person id body) db distinct = put_person-Kept id body db
  serve-Kept (post_binding input) db distinct = Kept-self own db
  serve-Kept (put_binding id input) db distinct = Kept-self own db
  serve-Kept (post_auto_add new_id cs) db distinct = Kept-self own db
  serve-Kept (post_token plain id note) db distinct = post_token-Kept plain id note db
  serve-Kept (post_revoke id) db distinct = post_revoke-Kept id db distinct
  serve-Kept (post_rotate plain id note) db distinct = post_rotate-Kept plain id note db distinct
