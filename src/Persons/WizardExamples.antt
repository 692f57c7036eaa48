-- ===== src/Persons/WizardExamples.antt =====
-- The wizard and the automatic binding at concrete tables.

use pmeow.Prelude.{
  ℕ, String, Bool, true, false, [], ◌∷◌, ◌++◌, ◌+◌, none, some, ◌≡◌, ◌⊎◌, ◌≢◌, refl, arith, map,
  length, ltb,
}
use pmeow.Persons.Records.{new_person}
use pmeow.Persons.Bindings.{PersonBindingRecord, get_active_binding, manual, synced}
use pmeow.Persons.Resolve.{PersonBindingCandidate}
use pmeow.Persons.Wizard.{
  CreatePersonWizardInput, PersonDb, WizardBinding, by_hand, create_person_from_wizard,
}
use pmeow.Persons.Conflicts.{is_conflicting, is_created, create_person_from_wizard-conflicting}
use pmeow.Persons.AutoAdd.{
  AutoAddAction, AutoAddReport, only_name, auto_add_unassigned_users, skipped_root, entry,
}
use pmeow.Persons.AutoAdded.{account, candidate_account, total, auto_add_unassigned_users-entries}

abbrev bound : PersonBindingRecord
bound = record {
  id = 1;
  person_id = "ann";
  server_id = "s";
  system_user = "ann";
  source = manual;
  enabled = true;
  effective_from = none;
  effective_to = none;
  created_at = 1;
  updated_at = 1;
}

abbrev one_person : PersonDb
one_person = record {
  persons = new_person 1 "ann" (only_name "Ann") ∷ [];
  bindings = record { bindings = bound ∷ []; next_id = 2 };
}

abbrev asked : String → WizardBinding
asked user = record { server_id = "s"; system_user = user; source = none }

-- Bob asks for an account that is Ann's.
abbrev bob : CreatePersonWizardInput
bob = record {
  mode = by_hand;
  display_name = "Bob";
  email = none;
  qq = none;
  note = none;
  bindings = asked "bob" ∷ asked "ann" ∷ asked "ann" ∷ [];
  confirm_transfer = false;
}

no_colon : (c : ℕ) → ltb c 58 ≡ false → ltb 58 c ≡ true → c ≢ 58
no_colon c h k e = ground arith

create_person_from_wizard-conflicting_example :
    (is_conflicting (create_person_from_wizard (λ s. s) 9 "bob" bob one_person).1 ≡ true)
    × ((is_created (create_person_from_wizard (λ s. s) 9 "bob" bob one_person).1 ≡ true)
        ⊎ ((create_person_from_wizard (λ s. s) 9 "bob" bob one_person).0 ≡ one_person))
unfolding get_active_binding
create_person_from_wizard-conflicting_example =
    create_person_from_wizard-conflicting (λ s. s) 9 "bob" bob one_person
      (
        (no_colon 115 refl refl, tt),
        ((no_colon 115 refl refl, tt), ((no_colon 115 refl refl, tt), tt)),
      )

abbrev candidate : String → PersonBindingCandidate
candidate user = record {
  server_id = "s";
  server_name = "first";
  system_user = user;
  active_binding = none;
  active_person = none;
}

abbrev drawn_id : ℕ → String
drawn_id n = "new"

abbrev before : String → String → Bool
before a b = true

abbrev bound_bob : PersonBindingRecord
bound_bob = record bound {
  id = 2;
  person_id = "new";
  system_user = "bob";
  source = synced;
  created_at = 9;
  updated_at = 9;
}

abbrev after : PersonDb
after = record {
  persons = one_person.persons ++ new_person 9 "new" (only_name "bob") ∷ [];
  bindings = record { bindings = bound ∷ bound_bob ∷ []; next_id = 3 };
}

abbrev report : AutoAddReport
report = record {
  entries =
      entry (candidate "root") skipped_root none
      ∷ entry (candidate "bob") AutoAddAction.created (some (new_person 9 "new" (only_name "bob")))
      ∷ [];
  created_count = 1;
  reused_count = 0;
  skipped_count = 1;
}

bob_added :
    auto_add_unassigned_users before 9 drawn_id (candidate "root" ∷ candidate "bob" ∷ []) one_person
    ≡ some (after, report)
unfolding auto_add_unassigned_users
bob_added = refl

auto_add_unassigned_users-entries_example :
    (map account report.entries ≡ map candidate_account (candidate "root" ∷ candidate "bob" ∷ []))
    × (total report ≡ length (candidate "root" ∷ candidate "bob" ∷ []))
    × (length after.persons ≡ length one_person.persons + report.created_count)
auto_add_unassigned_users-entries_example =
    auto_add_unassigned_users-entries before 9 drawn_id (candidate "root" ∷ candidate "bob" ∷ [])
      one_person after report bob_added
