-- ===== src/Persons/AutoAdd.antt =====
-- `autoAddUnassignedUsers`: server/core/src/person/service.ts. The ids of new persons are those that the
-- platform's random generator draws, one after the other. The texts for the reader are left out of the
-- entries. None is a transaction that throws.
use mathlib.Core.Option
use pmeow.Prelude.{
  ℕ, suc, String, Bool, false, List, [], ◌∷◌, ◌++◌, Option, none, some, ◌==◌, string_eq,
  if◌then◌else◌, select,
}
use pmeow.Persons.Records.{PersonRecord, PersonInput, new_person, create_person, list_persons}
use pmeow.Persons.Bindings.{BindingDb, PersonBindingRecord, synced, create_binding}
use pmeow.Persons.Resolve.{PersonBindingCandidate}
use pmeow.Persons.Wizard.{PersonDb}

pub data AutoAddAction : Type 0 where
  created reused skipped_root skipped_ambiguous skipped_bound : AutoAddAction

pub record AutoAddReportEntry : Type 0 where
  pub server_id : String
  pub server_name : String
  pub system_user : String
  pub action : AutoAddAction
  pub person : Option PersonRecord

pub record AutoAddReport : Type 0 where
  pub entries : List AutoAddReportEntry
  pub created_count : ℕ
  pub reused_count : ℕ
  pub skipped_count : ℕ

-- The tables, the ids drawn so far, and the report.
pub record AutoAddState : Type 0 where
  pub db : PersonDb
  pub drawn : ℕ
  pub report : AutoAddReport

abbrev pub entry : PersonBindingCandidate → AutoAddAction → Option PersonRecord → AutoAddReportEntry
entry c action person = record {
  server_id = c.server_id;
  server_name = c.server_name;
  system_user = c.system_user;
  action = action;
  person = person;
}

abbrev pub skip : PersonBindingCandidate → AutoAddAction → AutoAddState → AutoAddState
skip c action s = record s {
  report = record (s.report) {
    entries = s.report.entries ++ entry c action none ∷ [];
    skipped_count = suc s.report.skipped_count;
  };
}

abbrev pub only_name : String → PersonInput
only_name name = record {
  display_name = name;
  email = none;
  qq = none;
  note = none;
  custom_fields = none;
}

module _ (name_before : String → String → Bool) (now : ℕ) (new_id : ℕ → String) where
  -- The active persons of this name.
  abbrev pub same_name_persons : String → PersonDb → List PersonRecord
  same_name_persons user db =
      select (λ p. p.display_name == user) (list_persons name_before false db.persons)

  abbrev pub bind_account :
      PersonBindingCandidate
      → PersonRecord
      → List PersonRecord
      → BindingDb
      → Option (BindingDb × Option PersonBindingRecord)
  bind_account c p persons db =
      create_binding now persons
        (record {
          person_id = p.id;
          server_id = c.server_id;
          system_user = c.system_user;
          source = synced;
          enabled = none;
          effective_from = none;
          effective_to = none;
        })
        db

  unfoldable pub reuse : PersonBindingCandidate → PersonRecord → AutoAddState → Option AutoAddState
  unfolding create_binding
  reuse c p s =
      Option.map
        (λ after. record s {
          db = record (s.db) { bindings = after.0 };
          report = record (s.report) {
            entries = s.report.entries ++ entry c reused (some p) ∷ [];
            reused_count = suc s.report.reused_count;
          };
        })
        (bind_account c p s.db.persons s.db.bindings)

  unfoldable pub create : PersonBindingCandidate → AutoAddState → Option AutoAddState
  unfolding create_binding create_person
  create c s =
      let p = new_person now (new_id s.drawn) (only_name c.system_user) in
      let persons = create_person now (new_id s.drawn) (only_name c.system_user) s.db.persons in
      Option.map
        (λ after. record s {
          db = record { persons = persons; bindings = after.0 };
          drawn = suc s.drawn;
          report = record (s.report) {
            entries = s.report.entries ++ entry c created (some p) ∷ [];
            created_count = suc s.report.created_count;
          };
        })
        (bind_account c p persons s.db.bindings)

  abbrev pub by_name :
      PersonBindingCandidate → List PersonRecord → AutoAddState → Option AutoAddState
  by_name c [] s = create c s
  by_name c (p ∷ []) s = reuse c p s
  by_name c (p ∷ q ∷ rest) s = some (skip c skipped_ambiguous s)

  -- The body of the loop.
  unfoldable pub add_candidate : PersonBindingCandidate → AutoAddState → Option AutoAddState
  unfolding reuse create list_persons
  add_candidate c s = elim c.active_binding [
    | some b ↦ some (skip c skipped_bound s)
    | none ↦
        if c.system_user == "root"
        then some (skip c skipped_root s)
        else by_name c (same_name_persons c.system_user s.db) s
  ]

  unfoldable pub add_all : List PersonBindingCandidate → AutoAddState → Option AutoAddState
  unfolding add_candidate
  add_all [] s = some s
  add_all (c ∷ rest) s = elim (add_candidate c s) [ none ↦ none | some s' ↦ add_all rest s' ]

  unfoldable pub auto_add_unassigned_users :
      List PersonBindingCandidate → PersonDb → Option (PersonDb × AutoAddReport)
  unfolding add_all
  auto_add_unassigned_users candidates db =
      Option.map (λ s. (s.db, s.report))
        (add_all candidates (record {
          db = db;
          drawn = 0;
          report = record { entries = []; created_count = 0; reused_count = 0; skipped_count = 0 };
        }))
