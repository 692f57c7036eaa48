-- ===== src/Persons/Throwing.antt =====
-- When creating a binding throws: `createBinding` of server/core/src/db/person-bindings.ts.
use mathlib.Core.Option
use pmeow.Prelude.{
  ℕ, String, true, false, not, ◌&&◌, List, [], ◌∷◌, none, some, ◌==◌, nat_eq, string_eq, ◌≡◌, refl,
  arith, inl, inr, Bool-cases, Option-cases, any, find, find_self, select, sort, sort-All, All,
  All-both, All-select, All-of_select, Distinct, is_some, subst,
}
use pmeow.Persons.Bindings.{
  PersonBindingRecord, BindingDb, BindingInput, get_binding_by_id, is_enabled_for, is_active_for,
  later_first, head_of, get_active_binding, is_rival, update_binding, change_of, create_binding,
  given_or, has_person,
}
use pmeow.Persons.Records.{PersonRecord}

-- What the keys of the table ensure: ids are distinct, an account has one enabled binding at most, and
-- the person of a binding is there.
pub record IsValid (persons : List PersonRecord) (db : BindingDb) : Type 0 where
  pub ids : Distinct (λ r. r.id) db.bindings
  pub exclusive :
      All
        (λ r. r.enabled ≡ true → any (is_rival r.id r.server_id r.system_user) db.bindings ≡ false)
        db.bindings
  pub owned : All (λ r. has_person r.person_id persons ≡ true) db.bindings

head-All :
    (P : PersonBindingRecord → Type 0) (rows : List PersonBindingRecord) (b : PersonBindingRecord)
    → All P rows
    → head_of rows ≡ some b
    → P b
head-All P [] b h e = absurd (cc)
head-All P (r ∷ rows) b (h, hs) e = subst P (Option.some-injective _ _ e) h

-- What is known of the active binding that is read.
abbrev Known : ℕ → String → String → List PersonRecord → BindingDb → PersonBindingRecord → Type 0
Known now sid user persons db b =
    ((find (λ r. r.id == b.id) db.bindings ≡ some b)
      × ((b.enabled ≡ true → any (is_rival b.id b.server_id b.system_user) db.bindings ≡ false)
          × (has_person b.person_id persons ≡ true)))
    × (is_active_for now sid user b ≡ true)

get_active_binding-Known :
    (now : ℕ) (sid user : String) (persons : List PersonRecord) (db : BindingDb)
    (b : PersonBindingRecord)
    → IsValid persons db
    → get_active_binding now sid user db ≡ some b
    → Known now sid user persons db b
unfolding get_active_binding
get_active_binding-Known now sid user persons db b v e =
    let InTable : PersonBindingRecord → Type 0 = λ x.
      (find (λ r. r.id == x.id) db.bindings ≡ some x)
      × ((x.enabled ≡ true → any (is_rival x.id x.server_id x.system_user) db.bindings ≡ false)
          × (has_person x.person_id persons ≡ true)) in
    let actives = select (is_active_for now sid user) db.bindings in
    head-All (Known now sid user persons db) (sort later_first actives) b
      (sort-All later_first (Known now sid user persons db) actives (
        All-both InTable (λ x. is_active_for now sid user x ≡ true) actives
          (All-select InTable (is_active_for now sid user) db.bindings (
            All-both (λ x. find (λ r. r.id == x.id) db.bindings ≡ some x)
              (λ x.
                (x.enabled ≡ true
                  → any (is_rival x.id x.server_id x.system_user) db.bindings ≡ false)
                × (has_person x.person_id persons ≡ true))
              db.bindings (find_self (λ r. r.id) db.bindings v.ids)
              (All-both
                (λ x.
                  x.enabled ≡ true
                  → any (is_rival x.id x.server_id x.system_user) db.bindings ≡ false)
                (λ x. has_person x.person_id persons ≡ true) db.bindings v.exclusive v.owned)))
          (All-of_select (is_active_for now sid user) db.bindings)))
      e

update_binding-is_some :
    (now : ℕ) (input : BindingInput) (sid user : String) (persons : List PersonRecord)
    (db : BindingDb) (b : PersonBindingRecord)
    → Known now sid user persons db b
    → is_some (update_binding now persons b.id (change_of input) db) ≡ true
unfolding update_binding get_binding_by_id
update_binding-is_some now input sid user persons db b ((found, (alone, owned)), active) =
    rw (found, update_binding) (rw (owned, alone (ground (arith, active))) (ground arith))

-- On a table that its keys allow, creating a binding succeeds exactly where the active binding of
-- the account is the same person's, or where there is none, the person is in the table of persons,
-- and the new binding is not enabled or no enabled binding of the account is left.
pub create_binding-is_some :
    (now : ℕ) (input : BindingInput) (persons : List PersonRecord) (db : BindingDb)
    → IsValid persons db
    → is_some (create_binding now persons input db)
      ≡ elim (get_active_binding now input.server_id input.system_user db) [
        | some existing ↦ existing.person_id == input.person_id
        | none ↦
            has_person input.person_id persons
            && not (
                given_or input.enabled true
                && any (is_enabled_for input.server_id input.system_user) db.bindings)
      ]
unfolding create_binding
create_binding-is_some now input persons db v =
    elim (Option-cases (get_active_binding now input.server_id input.system_user db)) [
      | inl e ↦ rw (e, create_binding) (ground arith)
      | inr (b, e) ↦
          rw (e, create_binding)
            (elim (Bool-cases (b.person_id == input.person_id)) [
              | inl t ↦ rw t (
                  update_binding-is_some now input input.server_id input.system_user persons db b (
                    get_active_binding-Known now input.server_id input.system_user persons db b v
                      e))
              | inr f ↦ rw f refl
            ])
    ]
