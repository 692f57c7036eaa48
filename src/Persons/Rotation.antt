-- ===== src/Persons/Rotation.antt =====
-- Which tokens are accepted after a rotation: server/core/src/db/person-tokens.ts.

use pmeow.Prelude.{
  ℕ, String, List, [], ◌∷◌, Option, none, some, ◌==◌, nat_eq, string_eq, eq_iff, if◌then◌else◌, ◌≡◌,
  ◌≢◌, ◌∙◌, refl, arith, inl, inr, Bool-cases, Option-cases, find, find_holds, find_only,
  find-append_one, or_else, update_where, All, All-both, Distinct,
}
use pmeow.Persons.Tokens.{
  PersonTokenRecord, TokenDb, get_person_token_by_id, revoke, accepts, new_token,
  create_person_token, verify_person_token, rotate_person_token,
}

-- The ids, and by the UNIQUE column the hashes, are distinct.
pub record IsValid (db : TokenDb) : Type 0 where
  pub ids : Distinct (λ r. r.id) db.tokens
  pub hashes : Distinct (λ r. r.token_hash) db.tokens

-- Rows other than the revoked one are accepted as before.
find-revoked :
    (hash : String) (id : ℕ) (old : PersonTokenRecord) (xs : List PersonTokenRecord)
    → old.id ≡ id
    → All (λ x. (x.id ≡ old.id → x ≡ old) × (x.token_hash ≡ old.token_hash → x ≡ old)) xs
    → find (accepts hash) (update_where (λ r. r.id == id) revoke xs)
      ≡ (if hash == old.token_hash then none else find (accepts hash) xs)
find-revoked hash id old [] e h = ground arith
find-revoked hash id old (x ∷ xs) e ((i, j), hs) = elim (Bool-cases (x.id == id)) [
  | inl t ↦ rw t (
      ground (
        arith,
        find-revoked hash id old xs e hs,
        i,
        eq_iff x.id id,
        eq_iff x.token_hash hash,
        eq_iff hash old.token_hash,
      ))
  | inr f ↦ rw f (
      ground (
        arith,
        find-revoked hash id old xs e hs,
        j,
        eq_iff x.id id,
        eq_iff x.token_hash hash,
        eq_iff hash old.token_hash,
      ))
]

module _ (hash_token : String → String) where
  -- The row that a plain token is accepted as.
  abbrev pub verified : ℕ → String → TokenDb → Option PersonTokenRecord
  verified now plain db = (verify_person_token hash_token now plain db).1

  verified-find :
      (now : ℕ) (plain : String) (db : TokenDb)
      → verified now plain db ≡ find (accepts (hash_token plain)) db.tokens
  unfolding verify_person_token
  verified-find now plain db = elim (Option-cases (find (accepts (hash_token plain)) db.tokens)) [
    | inl e ↦ rw (e, verified, verify_person_token) refl
    | inr (r, e) ↦ rw (e, verified, verify_person_token) refl
  ]

  find-absent :
      (hash : String) (xs : List PersonTokenRecord)
      → All (λ r. r.token_hash ≢ hash) xs
      → find (accepts hash) xs ≡ none
  find-absent hash [] h = refl
  find-absent hash (x ∷ xs) (h, hs) =
      ground (arith, find-absent hash xs hs, eq_iff x.token_hash hash)

  -- After the token with an id is rotated to a new plain token, where no row had the new hash: the new
  -- plain token is accepted as the new row, which belongs to the same person; a plain token with the
  -- old row's hash is not accepted; and every other plain token is accepted or not as before.
  pub rotate_person_token-verified :
      (now later : ℕ) (plain tried : String) (id : ℕ) (note : Option String) (db : TokenDb)
      (old : PersonTokenRecord)
      → IsValid db
      → get_person_token_by_id id db ≡ some old
      → All (λ r. r.token_hash ≢ hash_token plain) db.tokens
      → verified later tried (rotate_person_token hash_token now plain id note db).0 ≡ (
          if hash_token tried == hash_token plain
          then some
              (new_token hash_token db.next_id now plain old.person_id (or_else note old.note))
          else if hash_token tried == old.token_hash
          then none
          else verified later tried db)
  unfolding rotate_person_token get_person_token_by_id create_person_token
  rotate_person_token-verified now later plain tried id note db old v found fresh =
      let new = new_token hash_token db.next_id now plain old.person_id (or_else note old.note) in
      let left = update_where (λ r. r.id == id) revoke db.tokens in
      verified-find later tried _
      ∙ rw (found, rotate_person_token)
          (find-append_one (accepts (hash_token tried)) left new
            ∙ ground (
              arith,
              verified-find later tried db,
              find-absent (hash_token plain) db.tokens fresh,
              eq_iff (hash_token tried) (hash_token plain),
              eq_iff (hash_token plain) (hash_token tried),
              find-revoked (hash_token tried) id old db.tokens
                  ((eq_iff old.id id).0 (find_holds (λ r. r.id == id) db.tokens old found))
                  (All-both (λ x. x.id ≡ old.id → x ≡ old)
                    (λ x. x.token_hash ≡ old.token_hash → x ≡ old) db.tokens
                    (find_only (λ r. r.id) (λ r. r.id == id) db.tokens old v.ids found)
                    (find_only (λ r. r.token_hash) (λ r. r.id == id) db.tokens old v.hashes found)),
            ))
