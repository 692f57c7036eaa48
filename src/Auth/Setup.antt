-- ===== src/Auth/Setup.antt =====
-- The first login, which sets the password: server/runtime/src/auth.ts.
use pmeow.Prelude.{
  ℕ, String, string_eq, eq_iff, if◌then◌else◌, ◌≡◌, ◌≢◌, refl, arith, ap, ◌∙◌, inl, inr, Bool-cases,
  Distinct,
}
use pmeow.Protocol.Json.{text, field, no_fields, read}
use pmeow.Settings.Store.{get_settings, save_settings}
use pmeow.Settings.Reading.{get_settings-save_settings}
use pmeow.Auth.Login.{
  AuthPlatform, AuthDb, refused, admin_answer, unset, hashed, stored_password, set_password,
  log_in_with_password,
}

module _ {V : Type 0} (js : AuthPlatform V) where
  log_in_with_password-unset :
      (now : ℕ) (password : String) (db : AuthDb V)
      → stored_password js (read "password" (get_settings js.of db.settings)) ≡ unset
      → (log_in_with_password js now password db).0 ≡ set_password js password db
  unfolding log_in_with_password
  log_in_with_password-unset now password db e = rw (e, log_in_with_password) refl

  log_in_with_password-hashed :
      (now : ℕ) (password h : String) (db : AuthDb V)
      → stored_password js (read "password" (get_settings js.of db.settings)) ≡ hashed h
      → (log_in_with_password js now password db).1
        ≡ (if js.verify_password password h then admin_answer js now db else refused 401)
  unfolding log_in_with_password
  log_in_with_password-hashed now password h db e =
      rw (e, log_in_with_password)
        (elim (Bool-cases (js.verify_password password h)) [
          | inl v ↦ rw v refl
          | inr v ↦ rw v refl
        ])

  stored-set_password :
      (password : String) (db : AuthDb V)
      → Distinct (λ e. e.0) db.settings
      → js.hash_password password ≢ ""
      → stored_password js
          (read "password" (get_settings js.of (set_password js password db).settings))
        ≡ hashed (js.hash_password password)
  unfolding stored_password save_settings
  stored-set_password password db d h =
      ap (stored_password js) (
        get_settings-save_settings js.of "password"
          (field "password" (text (js.hash_password password)) no_fields) db.settings d)
      ∙ ground (arith, h, eq_iff (js.hash_password password) "")

  -- Where no password is stored and the hash of the first is not empty, a login sets the password,
  -- and a later login with any password is accepted exactly when bcrypt accepts it for that hash.
  pub log_in_with_password-first :
      (now later : ℕ) (first password : String) (db : AuthDb V)
      → Distinct (λ e. e.0) db.settings
      → js.hash_password first ≢ ""
      → stored_password js (read "password" (get_settings js.of db.settings)) ≡ unset
      → (log_in_with_password js later password (log_in_with_password js now first db).0).1 ≡ (
          if js.verify_password password (js.hash_password first)
          then admin_answer js later (set_password js first db)
          else refused 401)
  log_in_with_password-first now later first password db d h e =
      ap (λ s. (log_in_with_password js later password s).1)
        (log_in_with_password-unset now first db e)
      ∙ log_in_with_password-hashed later password (js.hash_password first)
          (set_password js first db) (stored-set_password first db d h)
