-- ===== src/Settings/Password.antt =====
-- The password in the routes on the settings: server/runtime/src/routes/settings-routes.ts.
use pmeow.Prelude.{
  ℕ, String, Bool, true, false, Option, none, some, string_eq, if◌then◌else◌, ◌≡◌, refl, arith, ◌∙◌,
  Distinct,
}
use pmeow.Protocol.Json.{Json, Fields, no_fields, field, read}
use pmeow.Persons.Bindings.{Principal, admin, person}
use pmeow.Auth.Middleware.{Checked, rejected, next, admin_only}
use pmeow.Tasks.Service.{RouteAnswer, status, answered}
use pmeow.Settings.Store.{SettingRows, get_settings, save_settings, remove}
use pmeow.Settings.Reading.{given, get_settings-save_settings}
use pmeow.Settings.Routes.{get_settings_route, put_settings_route}

-- A field of an answer; an error has none.
abbrev pub read_answer : {V : Type 0} → String → RouteAnswer (Fields V) → Option (Json V)
read_answer key (status code) = none
read_answer key (answered fs) = read key fs

abbrev pub passes : Checked → Bool
passes (rejected code) = false
passes (next p) = true

module _ {V : Type 0} where
  given-remove : (key : String) (fs : Fields V) → given key (remove key fs) ≡ none
  unfolding remove
  given-remove key no_fields = refl
  given-remove key (field k v fs) = ground (arith, given-remove key fs)

  read-remove : (key : String) (fs : Fields V) → read key (remove key fs) ≡ none
  unfolding remove
  read-remove key no_fields = refl
  read-remove key (field k v fs) = ground (arith, read-remove key fs)

  module _ (of : ℕ → V) (updates : Fields V) (rows : SettingRows V)
      (d : Distinct (λ e. e.0) rows) where
    kept_password :
        read "password" (get_settings of (save_settings (remove "password" updates) rows))
        ≡ read "password" (get_settings of rows)
    kept_password =
        get_settings-save_settings of "password" (remove "password" updates) rows d
        ∙ rw (given-remove "password" updates) refl

    -- Where no key has two rows, the route that reads the settings gives nobody the password; the
    -- route that writes them changes no password, and its answer holds the stored one for an
    -- administrator and none for others.
    pub settings_routes-password :
        (p : Option Principal)
        → (read_answer "password" (get_settings_route p of rows) ≡ none)
          × (read "password" (get_settings of (put_settings_route p of updates rows).0)
              ≡ read "password" (get_settings of rows))
          × (read_answer "password" (put_settings_route p of updates rows).1
              ≡ (if passes (admin_only p) then read "password" (get_settings of rows) else none))
    unfolding get_settings_route put_settings_route
    settings_routes-password none = (refl, refl, refl)
    settings_routes-password (some (person id)) = (refl, refl, refl)
    settings_routes-password (some admin) =
        (read-remove "password" (get_settings of rows), kept_password, kept_password)
