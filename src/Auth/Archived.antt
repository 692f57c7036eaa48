-- ===== src/Auth/Archived.antt =====
-- Archiving a person: server/core/src/db/persons.ts and server/runtime/src/auth.ts.
use mathlib.Core.Option
use pmeow.Prelude.{
  ℕ, String, Option, none, some, ◌==◌, string_eq, eq_iff, if◌then◌else◌, ◌≡◌, refl, arith, inl, inr,
  Bool-cases, Option-cases, find, find-map, find_holds, List, [], ◌∷◌,
}
use pmeow.Persons.Records.{
  PersonRecord, PersonChange, archived, get_person_by_id, update_person, changed_person,
}
use pmeow.Persons.Tokens.{verify_person_token}
use pmeow.Persons.Bindings.{person}
use pmeow.Auth.Login.{AuthPlatform, AuthDb, active_person}
use pmeow.Auth.Middleware.{
  Checked, rejected, next, after_prefix, try_person_token, auth_middleware, or_rejected,
}

get_person_by_id-id :
    (j : String) (persons : List PersonRecord) (p : PersonRecord)
    → get_person_by_id j persons ≡ some p
    → p.id ≡ j
unfolding get_person_by_id
get_person_by_id-id j persons p e = (eq_iff p.id j).0 (find_holds (λ q. q.id == j) persons p e)

active_person-id :
    (j : String) (persons : List PersonRecord) (p : PersonRecord)
    → active_person j persons ≡ some p
    → p.id ≡ j
active_person-id j persons p e = elim (Option-cases (get_person_by_id j persons)) [
  | inl n ↦ absurd (cc (rw n at e))
  | inr (q, s) ↦ ground (arith, get_person_by_id-id j persons q s, e, s)
]

module _ (now : ℕ) (id : String) (change : PersonChange)
    (given : change.status ≡ some archived) where
  -- The row afterwards, where there is one.
  abbrev changed : PersonRecord → PersonRecord
  changed p = if p.id == id then changed_person now change p else p

  get_person_by_id-updated :
      (j : String) (persons : List PersonRecord)
      → get_person_by_id j (update_person now id change persons).0
        ≡ Option.map changed (get_person_by_id j persons)
  unfolding get_person_by_id update_person
  get_person_by_id-updated j persons = elim (Option-cases (get_person_by_id id persons)) [
    | inr (p, e) ↦
        rw (e, update_person) (find-map (λ q. q.id == j) changed persons (λ q. ground arith))
    | inl e ↦ rw (e, update_person) (unchanged persons e)
  ]
    where
      unchanged :
          (xs : List PersonRecord)
          → find (λ q. q.id == id) xs ≡ none
          → find (λ q. q.id == j) xs ≡ Option.map changed (find (λ q. q.id == j) xs)
      unchanged [] h = refl
      unchanged (x ∷ xs) h = ground (arith, unchanged xs)

  active_person-archived :
      (j : String) (persons : List PersonRecord)
      → active_person j (update_person now id change persons).0
        ≡ (if j == id then none else active_person j persons)
  active_person-archived j persons = elim (Option-cases (get_person_by_id j persons)) [
    | inl e ↦ rw (get_person_by_id-updated j persons, e) (ground arith)
    | inr (p, e) ↦
        rw (get_person_by_id-updated j persons, e)
          (ground (arith, given, get_person_by_id-id j persons p e, eq_iff j id, eq_iff p.id id))
  ]

-- The person's requests are rejected.
abbrev pub forbid : String → Checked → Checked
forbid id (next (person j)) = if j == id then rejected 401 else next (person j)
forbid id c = c

abbrev pub with_change : {V : Type 0} → ℕ → String → PersonChange → AuthDb V → AuthDb V
with_change now id change db = record db { persons = (update_person now id change db.persons).0 }

module _ {V : Type 0} (js : AuthPlatform V) (now later : ℕ) (id : String) (change : PersonChange)
    (given : change.status ≡ some archived) (db : AuthDb V) where
  try_person_token-archived :
      (token : String)
      → or_rejected js (try_person_token js later token (with_change now id change db)).1
        ≡ forbid id (or_rejected js (try_person_token js later token db).1)
  unfolding try_person_token
  try_person_token-archived token =
      elim (Option-cases (verify_person_token js.hash_token later token db.tokens).1) [
        | inl e ↦ rw (e, try_person_token) refl
        | inr (row, e) ↦
            rw (e, try_person_token)
              (rw
                (
                  active_person-archived now id change given row.person_id db.persons,
                  try_person_token,
                )
                (elim (Option-cases (active_person row.person_id db.persons)) [
                  | inl a ↦ ground (arith, a)
                  | inr (p, a) ↦ ground (
                    arith,
                    a,
                    active_person-id row.person_id db.persons p a,
                    eq_iff row.person_id id,
                    eq_iff p.id id,
                  )
                ]))
      ]

  -- Once a person has been archived, every request that would have had that person as its
  -- principal is rejected, and every other request has the principal that it would have had.
  pub auth_middleware-archived :
      (header : Option String)
      → (auth_middleware js later header (with_change now id change db)).1
        ≡ forbid id (auth_middleware js later header db).1
  unfolding auth_middleware
  auth_middleware-archived none = refl
  auth_middleware-archived (some auth) = elim (Option-cases (after_prefix "Bearer " auth)) [
    | inl e ↦ rw (e, auth_middleware) refl
    | inr (token, e) ↦
        rw (e, auth_middleware)
          (elim (Bool-cases (js.verify_token later token)) [
            | inl v ↦ rw v refl
            | inr v ↦ rw v (try_person_token-archived token)
          ])
  ]
