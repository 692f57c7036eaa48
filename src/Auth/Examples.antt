-- ===== src/Auth/Examples.antt =====
-- A first login, a person's token, and the person archived.
use pmeow.Prelude.{
  ℕ, String, false, [], ◌∷◌, none, some, ◌==◌, string_eq, nat_eq, eq_iff, if◌then◌else◌, ◌≡◌, ◌≢◌,
  refl,
}
use pmeow.Protocol.Json.{Json, text, object, field, no_fields, read}
use pmeow.Settings.Store.{get_settings}
use pmeow.Persons.Records.{PersonRecord, PersonChange, active, archived, get_person_by_id}
use pmeow.Persons.Tokens.{TokenStatus}
use pmeow.Persons.Bindings.{person, can_access_server}
use pmeow.Persons.Scope.{
  is_accessible, get_accessible_server_ids, get_accessible_server_ids-can_access_server,
}
use pmeow.Auth.Login.{
  AuthPlatform, AuthDb, accepted, refused, admin_answer, unset, set_password, stored_password,
  log_in, log_in_with_password, build_session_response,
}
use pmeow.Auth.Middleware.{next, auth_middleware, socket_auth_middleware, or_rejected}
use pmeow.Auth.Accepted.{bearer, log_in-auth_middleware, socket_auth_middleware-auth_middleware}
use pmeow.Auth.Archived.{forbid, with_change, auth_middleware-archived}
use pmeow.Auth.Setup.{log_in_with_password-first}

abbrev js : AuthPlatform ℕ
js = record {
  of = λ n. n;
  is_zero = λ n. n == 0;
  trim = λ s. s;
  hash_token = λ s. s;
  hash_password = λ s. "hash";
  verify_password = λ p h. p == "secret";
  sign_token = λ n. "jwt";
  verify_token = λ n t. t == "jwt";
}

abbrev ann : PersonRecord
ann = record {
  id = "ann";
  display_name = "Ann";
  email = none;
  qq = none;
  note = none;
  custom_fields = "{}";
  status = active;
  created_at = 1;
  updated_at = 1;
}

abbrev db : AuthDb ℕ
db = record {
  settings = [];
  persons = ann ∷ [];
  tokens = record {
    tokens =
        record {
          id = 1;
          person_id = "ann";
          token_hash = "pt";
          status = TokenStatus.active;
          note = none;
          created_at = 1;
          last_used_at = none;
        }
        ∷ [];
    next_id = 2;
  };
  bindings = record { bindings = []; next_id = 1 };
}

abbrev body : Json ℕ
body = object (field "token" (text "pt") no_fields)

not_jwt :
    (id : String)
    → (build_session_response js (log_in js 5 body db).0 (person "ann")).principal ≡ person id
    → js.verify_token 6 "pt" ≡ false
not_jwt id e = refl

logged_in :
    (log_in js 5 body db).1
    ≡ accepted "pt" (build_session_response js (log_in js 5 body db).0 (person "ann"))
unfolding log_in get_person_by_id build_session_response
logged_in = refl

log_in-auth_middleware_example :
    (auth_middleware js 6 (some (bearer "pt")) (log_in js 5 body db).0).1
    ≡ next (build_session_response js (log_in js 5 body db).0 (person "ann")).principal
log_in-auth_middleware_example =
    log_in-auth_middleware js 5 6 body "pt"
      (build_session_response js (log_in js 5 body db).0 (person "ann")) db refl not_jwt logged_in

pt_not_empty : ◌≢◌ {A = String} "pt" ""
pt_not_empty e = cc ((eq_iff {A = String} "pt" "").1 e)

hash_not_empty : js.hash_password "secret" ≢ ""
hash_not_empty e = cc ((eq_iff {A = String} "hash" "").1 e)

socket_auth_middleware-auth_middleware_example :
    (auth_middleware js 6 (some (bearer "pt")) db).1
    ≡ or_rejected js (socket_auth_middleware js 6 (some "pt") db).1
socket_auth_middleware-auth_middleware_example =
    socket_auth_middleware-auth_middleware js 6 "pt" db pt_not_empty

abbrev archive : PersonChange
archive = record {
  display_name = none;
  email = none;
  qq = none;
  note = none;
  custom_fields = none;
  status = some archived;
}

auth_middleware-archived_example :
    (auth_middleware js 8 (some (bearer "pt")) (with_change 7 "ann" archive db)).1
    ≡ forbid "ann" (auth_middleware js 8 (some (bearer "pt")) db).1
auth_middleware-archived_example =
    auth_middleware-archived js 7 8 "ann" archive refl db (some (bearer "pt"))

no_password : stored_password js (read "password" (get_settings js.of db.settings)) ≡ unset
unfolding stored_password get_settings
no_password = refl

log_in_with_password-first_example :
    (log_in_with_password js 6 "guess" (log_in_with_password js 5 "secret" db).0).1 ≡ (
      if js.verify_password "guess" (js.hash_password "secret")
      then admin_answer js 6 (set_password js "secret" db)
      else refused 401)
log_in_with_password-first_example =
    log_in_with_password-first js 5 6 "secret" "guess" db tt hash_not_empty no_password

get_accessible_server_ids-can_access_server_example :
    is_accessible "s1" (get_accessible_server_ids (person "ann") db.bindings)
    ≡ can_access_server (person "ann") "s1" db.bindings
get_accessible_server_ids-can_access_server_example =
    get_accessible_server_ids-can_access_server (person "ann") "s1" db.bindings
