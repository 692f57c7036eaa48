-- ===== src/Settings/Examples.antt =====
-- One setting saved over its default.
use pmeow.Prelude.{ℕ, [], none, some, ◌≡◌}
use pmeow.Protocol.Json.{Fields, number, text, field, no_fields, read, or_else}
use pmeow.Settings.Store.{SettingRows, get_settings, save_settings}
use pmeow.Settings.Reading.{given, get_settings-save_settings}
use pmeow.Settings.Routes.{get_settings_route, put_settings_route}
use pmeow.Settings.Password.{read_answer, settings_routes-password}
use pmeow.Persons.Bindings.{admin}

abbrev update : Fields ℕ
update = field "alertCpuThreshold" (number 80) (field "password" (text "p") no_fields)

abbrev no_rows : SettingRows ℕ
no_rows = []

get_settings-save_settings_example :
    read "alertCpuThreshold" (get_settings (λ n. n) (save_settings update no_rows))
    ≡ or_else
        (given "alertCpuThreshold" update)
        (read "alertCpuThreshold" (get_settings (λ n. n) no_rows))
get_settings-save_settings_example =
    get_settings-save_settings (λ n. n) "alertCpuThreshold" update no_rows tt

settings_routes-password_example :
    (read_answer "password" (get_settings_route (some admin) (λ n. n) no_rows) ≡ none)
    × (read "password"
          (get_settings (λ n. n) (put_settings_route (some admin) (λ n. n) update no_rows).0)
        ≡ read "password" (get_settings (λ n. n) no_rows))
    × (read_answer "password" (put_settings_route (some admin) (λ n. n) update no_rows).1
        ≡ read "password" (get_settings (λ n. n) no_rows))
settings_routes-password_example = settings_routes-password (λ n. n) update no_rows tt (some admin)
