-- ===== src/Routes/Kept.antt =====
-- What a person's requests may not change, and the rewritings of rows that leave it.

use pmeow.Prelude.{
  ℕ, String, Bool, true, false, not, List, [], ◌∷◌, ◌++◌, map, Option, some, select, ◌==◌, nat_eq,
  string_eq, eq_iff, ◌≡◌, refl, sym, ap, ◌∙◌, arith, inl, inr, Bool-cases, All, All-weaken,
  Distinct, find_only, find_holds, update_where,
}
use pmeow.Persons.Records.{PersonRecord, PersonStatus, PersonChange, changed_person}
use pmeow.Persons.Tokens.{PersonTokenRecord, TokenDb, get_person_token_by_id, update_id}
use pmeow.Persons.Bindings.{person}
use pmeow.Routes.People.{PeopleDb, payload}

-- What a person's own request may not change.
pub record Identity : Type 0 where
  pub id : String
  pub display_name : String
  pub note : Option String
  pub custom_fields : String
  pub status : PersonStatus

abbrev pub identity : PersonRecord → Identity
identity p = record {
  id = p.id;
  display_name = p.display_name;
  note = p.note;
  custom_fields = p.custom_fields;
  status = p.status;
}

abbrev pub is_other : String → PersonRecord → Bool
is_other own p = not (p.id == own)

abbrev pub is_foreign : String → PersonTokenRecord → Bool
is_foreign own t = not (t.person_id == own)

-- What stays for everyone but this person.
pub record Kept (own : String) (db after : PeopleDb) : Type 0 where
  pub bindings : after.people.bindings ≡ db.people.bindings
  pub identities : map identity after.people.persons ≡ map identity db.people.persons
  pub others : select (is_other own) after.people.persons ≡ select (is_other own) db.people.persons
  pub tokens :
      select (is_foreign own) after.tokens.tokens ≡ select (is_foreign own) db.tokens.tokens

pub Kept-self : (own : String) (db : PeopleDb) → Kept own db db
Kept-self own db = record { bindings = refl; identities = refl; others = refl; tokens = refl }

All-all {ℓ κ} : {A : Type ℓ} {P : A → Type κ} → ((x : A) → P x) → (xs : List A) → All P xs
All-all h [] = tt
All-all h (x ∷ xs) = (h x, All-all h xs)

pub identities-update :
    (now : ℕ) (own id : String) (body : PersonChange) (ps : List PersonRecord)
    → map identity
        (update_where (λ p. p.id == id) (changed_person now (payload (some (person own)) body)) ps)
      ≡ map identity ps
identities-update now own id body [] = refl
identities-update now own id body (p ∷ ps) = elim (Bool-cases (p.id == id)) [
  | inl t ↦ rw t (ap (λ r. identity p ∷ r) (identities-update now own id body ps))
  | inr f ↦ rw f (ap (λ r. identity p ∷ r) (identities-update now own id body ps))
]

module _ {ℓ} {A : Type ℓ} (keep : A → Bool) where
  -- A rewriting of rows that are not selected, before or after.
  select-update :
      (q : A → Bool) (f : A → A) (xs : List A)
      → All (λ x. q x ≡ true → (keep x ≡ false) × (keep (f x) ≡ false)) xs
      → select keep (update_where q f xs) ≡ select keep xs
  select-update q f [] h = refl
  select-update q f (x ∷ xs) (h, hs) = elim (Bool-cases (q x)) [
    | inl b ↦ rw (b, (h b).0, (h b).1) (select-update q f xs hs)
    | inr b ↦ rw b (ground (arith, select-update q f xs hs))
  ]

  pub select-append_other :
      (xs : List A) (x : A) → keep x ≡ false → select keep (xs ++ x ∷ []) ≡ select keep xs
  select-append_other [] x e = rw e refl
  select-append_other (y ∷ xs) x e = ground (arith, select-append_other xs x e)

module _ (own : String) where
  pub other-own : (s : String) → s ≡ own → not (s == own) ≡ false
  other-own s e = rw ((eq_iff s own).1 e) refl

  pub others-update :
      (now : ℕ) (change : PersonChange) (ps : List PersonRecord)
      → select (is_other own) (update_where (λ p. p.id == own) (changed_person now change) ps)
        ≡ select (is_other own) ps
  others-update now change ps =
      select-update (is_other own) (λ p. p.id == own) (changed_person now change) ps
        (All-all (λ p h. (rw h refl, rw h refl)) ps)

  -- A rewriting, by id, of rows of this person that leaves them this person's.
  pub tokens-update :
      (f : PersonTokenRecord → PersonTokenRecord) (id : ℕ) (t : PersonTokenRecord) (db : TokenDb)
      → ((r : PersonTokenRecord) → (f r).person_id ≡ r.person_id)
      → Distinct (λ r. r.id) db.tokens
      → get_person_token_by_id id db ≡ some t
      → t.person_id ≡ own
      → select (is_foreign own) (update_id id f db).tokens ≡ select (is_foreign own) db.tokens
  unfolding get_person_token_by_id
  tokens-update f id t db keeps distinct found owned =
      select-update (is_foreign own) _ f db.tokens (
        All-weaken (λ r. r.id ≡ t.id → r ≡ t) _ db.tokens
          (λ r only h.
            let same : r.person_id ≡ own =
              ap (λ (x : PersonTokenRecord). x.person_id) (only ((eq_iff r.id id).0 h ∙ sym named))
              ∙ owned in
            (other-own r.person_id same, other-own (f r).person_id (keeps r ∙ same)))
          (find_only (λ (r : PersonTokenRecord). r.id) _ db.tokens t distinct found))
    where
      named : t.id ≡ id
      named = (eq_iff t.id id).0 (find_holds (λ r. r.id == id) db.tokens t found)
