-- ===== src/Persons/Tokens.antt =====
-- Access tokens of persons: server/core/src/db/person-tokens.ts. A plain token is an argument, since it
-- comes from the random generator of the platform, and the person is one that exists, as the foreign key
-- wants; the columns are those of the table
-- `person_tokens`.
use pmeow.Prelude.{
  ℕ, suc, String, Bool, true, false, ◌&&◌, List, [], ◌∷◌, ◌++◌, Option, none, some, ◌==◌, nat_eq,
  string_eq, find, or_else, update_where,
}

pub data TokenStatus : Type 0 where
  active revoked : TokenStatus

abbrev pub is_active : TokenStatus → Bool
is_active active = true
is_active revoked = false

pub record PersonTokenRecord : Type 0 where
  pub id : ℕ
  pub person_id : String
  pub token_hash : String
  pub status : TokenStatus
  pub note : Option String
  pub created_at : ℕ
  pub last_used_at : Option ℕ

pub record TokenDb : Type 0 where
  pub tokens : List PersonTokenRecord
  pub next_id : ℕ

abbrev pub update_id : ℕ → (PersonTokenRecord → PersonTokenRecord) → TokenDb → TokenDb
update_id id f db = record db { tokens = update_where (λ r. r.id == id) f db.tokens }

unfoldable pub get_person_token_by_id : ℕ → TokenDb → Option PersonTokenRecord
get_person_token_by_id id db = find (λ r. r.id == id) db.tokens

abbrev pub revoke : PersonTokenRecord → PersonTokenRecord
revoke r = record r { status = revoked }

abbrev pub use_at : ℕ → PersonTokenRecord → PersonTokenRecord
use_at now r = record r { last_used_at = some now }

-- An active row with this hash.
abbrev pub accepts : String → PersonTokenRecord → Bool
accepts hash r = r.token_hash == hash && is_active r.status

module _ (hash_token : String → String) where
  abbrev pub new_token : ℕ → ℕ → String → String → Option String → PersonTokenRecord
  new_token id now plain person note = record {
    id = id;
    person_id = person;
    token_hash = hash_token plain;
    status = active;
    note = note;
    created_at = now;
    last_used_at = none;
  }

  unfoldable pub create_person_token :
      ℕ → String → String → Option String → TokenDb → TokenDb × PersonTokenRecord
  create_person_token now plain person note db =
      let row = new_token db.next_id now plain person note in
      (record { tokens = db.tokens ++ row ∷ []; next_id = suc db.next_id }, row)

  -- The row is returned as it was read, before its use is written.
  unfoldable pub verify_person_token : ℕ → String → TokenDb → TokenDb × Option PersonTokenRecord
  verify_person_token now plain db = elim (find (accepts (hash_token plain)) db.tokens) [
    | none ↦ (db, none)
    | some row ↦ (update_id row.id (use_at now) db, some row)
  ]

  unfoldable pub revoke_person_token : ℕ → TokenDb → TokenDb × Option PersonTokenRecord
  unfolding get_person_token_by_id
  revoke_person_token id db = elim (get_person_token_by_id id db) [
    | none ↦ (db, none)
    | some existing ↦ let after = update_id id revoke db in (after, get_person_token_by_id id after)
  ]

  unfoldable pub rotate_person_token :
      ℕ → String → ℕ → Option String → TokenDb → TokenDb × Option PersonTokenRecord
  unfolding get_person_token_by_id create_person_token
  rotate_person_token now plain id note db = elim (get_person_token_by_id id db) [
    | none ↦ (db, none)
    | some existing ↦
        let created =
          create_person_token now plain existing.person_id (or_else note existing.note)
            (update_id id revoke db) in
        (created.0, some created.1)
  ]
