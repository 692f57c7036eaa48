-- ===== src/Auth/Login.antt =====
-- `loginHandler` and the answer to it: server/runtime/src/auth.ts. JSON Web Tokens, bcrypt and
-- `String.trim` are parameters. The body of a request is a JSON value.
use pmeow.Prelude.{
  ℕ, String, Bool, true, false, not, List, Option, none, some, ◌==◌, string_eq, if◌then◌else◌,
}
use pmeow.Protocol.Json.{Json, null, bool, number, text, array, object, get, read}
use pmeow.Settings.Store.{SettingRows, get_settings, save_setting}
use pmeow.Persons.Records.{PersonRecord, is_active, get_person_by_id}
use pmeow.Persons.Tokens.{TokenDb, verify_person_token}
use pmeow.Persons.Bindings.{BindingDb, Principal, admin, person}
use pmeow.Persons.Scope.{get_accessible_server_ids}

-- What the code takes from its platform and libraries. `hash_password` is the hash that this call of
-- `hashSync` makes, with its salt; `verify_token` says whether `jwt.verify` accepts a token at a time,
-- and `sign_token` is the administrator's token of a time.
pub record AuthPlatform (V : Type 0) : Type 0 where
  pub of : ℕ → V
  pub is_zero : V → Bool
  pub trim : String → String
  pub hash_token : String → String
  pub hash_password : String → String
  pub verify_password : String → String → Bool
  pub sign_token : ℕ → String
  pub verify_token : ℕ → String → Bool

pub record AuthDb (V : Type 0) : Type 0 where
  pub settings : SettingRows V
  pub persons : List PersonRecord
  pub tokens : TokenDb
  pub bindings : BindingDb

pub record SessionResponse : Type 0 where
  pub principal : Principal
  pub person : Option PersonRecord
  pub accessible_server_ids : Option (List String)

pub data LoginAnswer : Type 0 where
  -- The HTTP status of an error.
  refused : ℕ → LoginAnswer
  accepted : String → SessionResponse → LoginAnswer

-- The setting `password`: empty or of no value, a hash, or of another type, which bcrypt refuses.
pub data StoredPassword : Type 0 where
  unset unusable : StoredPassword
  hashed : String → StoredPassword

abbrev pub session_person : List PersonRecord → Principal → Option PersonRecord
session_person persons admin = none
session_person persons (person id) = get_person_by_id id persons

abbrev pub can_access_person_id : Option Principal → String → Bool
can_access_person_id none id = false
can_access_person_id (some admin) id = true
can_access_person_id (some (person own)) id = own == id

-- The text of a property, unless it is empty or of another type.
abbrev pub text_in : {V : Type 0} → (String → Bool) → Option (Json V) → Option String
text_in is_given (some (text s)) = if is_given s then some s else none
text_in is_given _ = none

-- `person && person.status === 'active'`
abbrev pub if_active : Option PersonRecord → Option PersonRecord
if_active none = none
if_active (some p) = if is_active p.status then some p else none

abbrev pub active_person : String → List PersonRecord → Option PersonRecord
active_person id persons = if_active (get_person_by_id id persons)

abbrev pub with_tokens : {V : Type 0} → AuthDb V → TokenDb → AuthDb V
with_tokens db t = record db { tokens = t }

module _ {V : Type 0} (js : AuthPlatform V) where
  unfoldable pub stored_password : Option (Json V) → StoredPassword
  stored_password none = unset
  stored_password (some null) = unset
  stored_password (some (bool b)) = if b then unusable else unset
  stored_password (some (number n)) = if js.is_zero n then unset else unusable
  stored_password (some (text s)) = if s == "" then unset else hashed s
  stored_password (some (array xs)) = unusable
  stored_password (some (object fs)) = unusable

  unfoldable pub build_session_response : AuthDb V → Principal → SessionResponse
  unfolding get_accessible_server_ids
  build_session_response db p = record {
    principal = p;
    person = session_person db.persons p;
    accessible_server_ids = get_accessible_server_ids p db.bindings;
  }

  -- The branch of `loginHandler` for an access token.
  unfoldable pub log_in_with_token : ℕ → String → AuthDb V → AuthDb V × LoginAnswer
  unfolding verify_person_token
  log_in_with_token now token db =
      let checked = verify_person_token js.hash_token now token db.tokens in
      let after = with_tokens db checked.0 in
      elim checked.1 [
        | none ↦ (after, refused 401)
        | some row ↦ elim (active_person row.person_id after.persons) [
          | none ↦ (after, refused 403)
          | some p ↦ (after, accepted token (build_session_response after (person p.id)))
        ]
      ]

  abbrev pub set_password : String → AuthDb V → AuthDb V
  set_password password db = record db {
    settings = save_setting "password" (text (js.hash_password password)) db.settings;
  }

  abbrev pub admin_answer : ℕ → AuthDb V → LoginAnswer
  admin_answer now db = accepted (js.sign_token now) (build_session_response db admin)

  -- The branch for a password.
  unfoldable pub log_in_with_password : ℕ → String → AuthDb V → AuthDb V × LoginAnswer
  unfolding get_settings stored_password save_setting
  log_in_with_password now password db =
      elim (stored_password (read "password" (get_settings js.of db.settings))) [
        | unset ↦ let after = set_password password db in (after, admin_answer now after)
        | unusable ↦ (db, refused 500)
        | hashed h ↦
            if js.verify_password password h then (db, admin_answer now db) else (db, refused 401)
      ]

  -- `loginHandler`
  unfoldable pub log_in : ℕ → Json V → AuthDb V → AuthDb V × LoginAnswer
  unfolding log_in_with_token log_in_with_password
  log_in now body db = elim (text_in (λ s. not (js.trim s == "")) (get "token" body)) [
    | some token ↦ log_in_with_token now token db
    | none ↦ elim (text_in (λ s. not (s == "")) (get "password" body)) [
      | some password ↦ log_in_with_password now password db
      | none ↦ (db, refused 400)
    ]
  ]
