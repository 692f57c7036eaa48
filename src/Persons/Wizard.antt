-- ===== src/Persons/Wizard.antt =====
-- `createPersonFromWizard`: server/core/src/person/service.ts. A new id comes from the platform's random
-- generator, and `trim` is `String.trim`. A transaction that throws leaves the tables as they were.
use Prim.Native.String
use pmeow.Prelude.{
  ℕ, String, Bool, true, false, not, ◌&&◌, List, [], ◌∷◌, ◌++◌, Option, none, some, ◌==◌, string_eq,
  if◌then◌else◌, any,
}
use pmeow.Persons.Records.{PersonRecord, new_person}
use pmeow.Persons.Bindings.{
  PersonBindingRecord, BindingDb, BindingSource, manual, suggested, get_active_binding,
  create_binding, deactivate_binding, given_or,
}
use pmeow.Persons.Resolve.{ResolvedPersonSummary, person_of}

pub data PersonWizardMode : Type 0 where
  seed_user by_hand : PersonWizardMode

pub record WizardBinding : Type 0 where
  pub server_id : String
  pub system_user : String
  pub source : Option BindingSource

-- A field that is missing, null or blank is alike to the code.
pub record CreatePersonWizardInput : Type 0 where
  pub mode : PersonWizardMode
  pub display_name : String
  pub email : Option String
  pub qq : Option String
  pub note : Option String
  pub bindings : List WizardBinding
  pub confirm_transfer : Bool

pub record PersonBindingConflict : Type 0 where
  pub server_id : String
  pub system_user : String
  pub active_binding : PersonBindingRecord
  pub active_person : Option ResolvedPersonSummary

pub record PersonDb : Type 0 where
  pub persons : List PersonRecord
  pub bindings : BindingDb

pub record CreatePersonWizardResult : Type 0 where
  pub person : PersonRecord
  pub bindings : List PersonBindingRecord
  pub transferred_bindings : List PersonBindingConflict

pub data WizardAnswer : Type 0 where
  -- The name is blank; a statement of the transaction throws.
  nameless failed : WizardAnswer
  conflicting : List PersonBindingConflict → WizardAnswer
  created : CreatePersonWizardResult → WizardAnswer

abbrev pub binding_key : WizardBinding → String
binding_key b = String.◌++◌ b.server_id (String.◌++◌ "::" b.system_user)

-- `filter` with the set of the keys seen so far.
unfoldable pub dedupe_from : List String → List WizardBinding → List WizardBinding
dedupe_from seen [] = []
dedupe_from seen (b ∷ rest) =
    let fresh = b ∷ dedupe_from (binding_key b ∷ seen) rest in
    let later = dedupe_from seen rest in if any (λ k. k == binding_key b) seen then later else fresh

unfoldable pub dedupe_bindings : List WizardBinding → List WizardBinding
unfolding dedupe_from
dedupe_bindings bindings = dedupe_from [] bindings

abbrev pub conflict_of :
    List PersonRecord → WizardBinding → Option PersonBindingRecord → List PersonBindingConflict
conflict_of persons b none = []
conflict_of persons b (some active) =
    record {
      server_id = b.server_id;
      system_user = b.system_user;
      active_binding = active;
      active_person = person_of persons active;
    }
    ∷ []

unfoldable pub conflicts_of : ℕ → PersonDb → List WizardBinding → List PersonBindingConflict
unfolding get_active_binding
conflicts_of now db [] = []
conflicts_of now db (b ∷ rest) =
    conflict_of db.persons b (get_active_binding now b.server_id b.system_user db.bindings)
    ++ conflicts_of now db rest

-- The loop over the conflicts; none where a statement throws.
unfoldable pub deactivate_all :
    ℕ → List PersonRecord → List PersonBindingConflict → BindingDb → Option BindingDb
unfolding deactivate_binding
deactivate_all now persons [] db = some db
deactivate_all now persons (c ∷ rest) db =
    elim (deactivate_binding now persons c.active_binding.id now db) [
      | none ↦ none
      | some after ↦ deactivate_all now persons rest after.0
    ]

abbrev pub default_source : PersonWizardMode → BindingSource
default_source seed_user = suggested
default_source by_hand = manual

abbrev pub created_rows :
    Option PersonBindingRecord → List PersonBindingRecord → List PersonBindingRecord
created_rows none rows = rows
created_rows (some r) rows = r ∷ rows

-- The loop over the bindings.
unfoldable pub create_all :
    ℕ
    → List PersonRecord
    → PersonWizardMode
    → String
    → List WizardBinding
    → BindingDb
    → Option (BindingDb × List PersonBindingRecord)
unfolding create_binding
create_all now persons mode id [] db = some (db, [])
create_all now persons mode id (b ∷ rest) db =
    elim (create_binding now persons
      (record {
        person_id = id;
        server_id = b.server_id;
        system_user = b.system_user;
        source = given_or b.source (default_source mode);
        enabled = none;
        effective_from = none;
        effective_to = none;
      })
      db) [
        | none ↦ none
        | some after ↦ elim (create_all now persons mode id rest after.0) [
          | none ↦ none
          | some done ↦ some (done.0, created_rows after.1 done.1)
        ]
      ]

abbrev pub is_empty {ℓ} : {A : Type ℓ} → List A → Bool
is_empty [] = true
is_empty (x ∷ xs) = false

module _ (trim : String → String) where
  abbrev pub normalize_nullable : Option String → Option String
  normalize_nullable none = none
  normalize_nullable (some s) = if trim s == "" then none else some (trim s)

  abbrev pub person_from : ℕ → String → CreatePersonWizardInput → PersonRecord
  person_from now id input = new_person now id (record {
    display_name = trim input.display_name;
    email = some (normalize_nullable input.email);
    qq = some (normalize_nullable input.qq);
    note = some (normalize_nullable input.note);
    custom_fields = none;
  })

  -- The table of persons with the new one, as the transaction's later statements see it.
  abbrev pub create_person_row :
      ℕ → String → CreatePersonWizardInput → List PersonRecord → List PersonRecord
  create_person_row now id input persons = persons ++ person_from now id input ∷ []

  -- The transaction.
  unfoldable pub transfer :
      ℕ
      → String
      → CreatePersonWizardInput
      → List WizardBinding
      → List PersonBindingConflict
      → PersonDb
      → PersonDb × WizardAnswer
  unfolding deactivate_all create_all
  transfer now id input bindings conflicts db =
      let persons = create_person_row now id input db.persons in
      elim (deactivate_all now persons conflicts db.bindings) [
        | none ↦ (db, failed)
        | some ended ↦ elim (create_all now persons input.mode id bindings ended) [
          | none ↦ (db, failed)
          | some done ↦ (
            record { persons = persons; bindings = done.0 },
            created (record {
              person = person_from now id input;
              bindings = done.1;
              transferred_bindings = conflicts;
            }),
          )
        ]
      ]

  unfoldable pub create_person_from_wizard :
      ℕ → String → CreatePersonWizardInput → PersonDb → PersonDb × WizardAnswer
  unfolding transfer conflicts_of dedupe_bindings
  create_person_from_wizard now id input db =
      let bindings = dedupe_bindings input.bindings in
      let conflicts = conflicts_of now db bindings in
      if trim input.display_name == ""
      then (db, nameless)
      else if not (is_empty conflicts) && not input.confirm_transfer
      then (db, conflicting conflicts)
      else transfer now id input bindings conflicts db
