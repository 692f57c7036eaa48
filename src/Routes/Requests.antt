-- ===== src/Routes/Requests.antt =====
-- The requests of server/runtime/src/routes/person-routes.ts that may write, and what they leave.
use pmeow.Prelude.{ℕ, String, Bool, List, Option}
use pmeow.Persons.Records.{PersonInput, PersonChange}
use pmeow.Persons.Bindings.{Principal, BindingInput, BindingChange}
use pmeow.Persons.Resolve.{PersonBindingCandidate}
use pmeow.Persons.Wizard.{CreatePersonWizardInput}
use pmeow.Routes.People.{
  PeopleDb, create_person_route, wizard_route, update_person_route, create_binding_route,
  update_binding_route, auto_add_route, create_token_route, revoke_token_route, rotate_token_route,
}

-- The requests that may write.
pub data PeopleRequest : Type 0 where
  post_person : String → PersonInput → PeopleRequest
  post_wizard : String → CreatePersonWizardInput → PeopleRequest
  put_person : String → PersonChange → PeopleRequest
  post_binding : BindingInput → PeopleRequest
  put_binding : ℕ → BindingChange → PeopleRequest
  post_auto_add : (ℕ → String) → List PersonBindingCandidate → PeopleRequest
  post_token : String → String → Option String → PeopleRequest
  post_revoke : ℕ → PeopleRequest
  post_rotate : String → ℕ → Option String → PeopleRequest

module _ (trim hash_token : String → String) (name_before : String → String → Bool) where
  -- The tables after a request.
  unfoldable pub serve : Option Principal → ℕ → PeopleRequest → PeopleDb → PeopleDb
  unfolding create_person_route wizard_route update_person_route create_binding_route
      update_binding_route auto_add_route create_token_route revoke_token_route rotate_token_route
  serve p now (post_person id input) db =
      (create_person_route trim hash_token name_before p now id input db).0
  serve p now (post_wizard id input) db =
      (wizard_route trim hash_token name_before p now id input db).0
  serve p now (put_person id body) db =
      (update_person_route trim hash_token name_before p now id body db).0
  serve p now (post_binding input) db =
      (create_binding_route trim hash_token name_before p now input db).0
  serve p now (put_binding id input) db =
      (update_binding_route trim hash_token name_before p now id input db).0
  serve p now (post_auto_add new_id cs) db =
      (auto_add_route trim hash_token name_before p now new_id cs db).0
  serve p now (post_token plain id note) db =
      (create_token_route trim hash_token name_before p now plain id note db).0
  serve p now (post_revoke id) db = (revoke_token_route trim hash_token name_before p id db).0
  serve p now (post_rotate plain id note) db =
      (rotate_token_route trim hash_token name_before p now plain id note db).0
