-- ===== src/Settings/Routes.antt =====
-- `settingsRoutes`: server/runtime/src/routes/settings-routes.ts, both behind `adminOnly`.
use pmeow.Prelude.{ℕ, Option}
use pmeow.Protocol.Json.{Fields}
use pmeow.Persons.Bindings.{Principal}
use pmeow.Auth.Middleware.{admin_only}
use pmeow.Tasks.Service.{RouteAnswer, answered}
use pmeow.Routes.Answers.{for_admin, after_admin}
use pmeow.Settings.Store.{SettingRows, get_settings, save_settings, remove}

module _ {V : Type 0} where
  -- GET /settings
  unfoldable pub get_settings_route :
      Option Principal → (ℕ → V) → SettingRows V → RouteAnswer (Fields V)
  unfolding get_settings remove
  get_settings_route p of rows =
      after_admin (admin_only p) (remove "password" (get_settings of rows))

  -- PUT /settings: the table, and the answer.
  unfoldable pub put_settings_route :
      Option Principal → (ℕ → V) → Fields V → SettingRows V → SettingRows V × RouteAnswer (Fields V)
  unfolding get_settings remove save_settings
  put_settings_route p of updates rows =
      let after = save_settings (remove "password" updates) rows in
      for_admin p rows (after, answered (get_settings of after))
