-- ===== src/Auth/Verified.antt =====
-- A person's token that is used twice: server/core/src/db/person-tokens.ts.

use mathlib.Core.Option
use pmeow.Prelude.{
  ℕ, String, some, ◌==◌, string_eq, nat_eq, if◌then◌else◌, ◌≡◌, refl, ap, ◌∙◌, arith, inl, inr,
  Option-cases, find, find-map, update_where,
}
use pmeow.Persons.Tokens.{PersonTokenRecord, TokenDb, accepts, use_at, verify_person_token}

-- A row, once its use is written.
abbrev pub used : ℕ → ℕ → PersonTokenRecord → PersonTokenRecord
used now id r = if r.id == id then use_at now r else r

used-accepts :
    (hash : String) (now id : ℕ) (r : PersonTokenRecord)
    → accepts hash (used now id r) ≡ accepts hash r
used-accepts hash now id r = ground arith

pub used_person : (now id : ℕ) (r : PersonTokenRecord) → (used now id r).person_id ≡ r.person_id
used_person now id r = ground arith

module _ (hash_token : String → String) where
  pub verify_person_token-find :
      (now : ℕ) (plain : String) (db : TokenDb) (row : PersonTokenRecord)
      → find (accepts (hash_token plain)) db.tokens ≡ some row
      → verify_person_token hash_token now plain db ≡ (
        record db { tokens = update_where (λ r. r.id == row.id) (use_at now) db.tokens },
        some row,
      )
  unfolding verify_person_token
  verify_person_token-find now plain db row e = rw (e, verify_person_token) refl

  pub find_of_verified :
      (now : ℕ) (plain : String) (db : TokenDb) (row : PersonTokenRecord)
      → (verify_person_token hash_token now plain db).1 ≡ some row
      → find (accepts (hash_token plain)) db.tokens ≡ some row
  unfolding verify_person_token
  find_of_verified now plain db row h =
      elim (Option-cases (find (accepts (hash_token plain)) db.tokens)) [
        | inl e ↦ absurd (cc (rw (e, verify_person_token) at h))
        | inr (r, e) ↦ e ∙ (rw (e, verify_person_token) at h)
      ]

  -- A token that is accepted is accepted again, for the same person.
  pub verified_again :
      (now later : ℕ) (plain : String) (db : TokenDb) (row : PersonTokenRecord)
      → find (accepts (hash_token plain)) db.tokens ≡ some row
      → (verify_person_token hash_token later plain
          (record db { tokens = update_where (λ r. r.id == row.id) (use_at now) db.tokens })).1
        ≡ some (used now row.id row)
  verified_again now later plain db row e =
      ap (λ p. p.1)
        (verify_person_token-find later plain _ (used now row.id row) (
          find-map (accepts (hash_token plain)) (used now row.id) db.tokens
            (λ r. used-accepts (hash_token plain) now row.id r)
          ∙ ap (Option.map (used now row.id)) e))
