-- ===== src/Routes/AlertList.antt =====
-- GET /alerts: server/runtime/src/routes/alert-routes.ts, with the join that names an alert's server in
-- `getAlerts` of server/core/src/db/alerts.ts. The offset and the limit are what `Number(…) || 0` reads, where
-- that is a natural number.
use pmeow.Prelude.{
  ℕ, String, List, [], map, Option, none, some, ◌==◌, string_eq, ltb, if◌then◌else◌,
}
use pmeow.Alerts.Types.{AlertStatus, active, resolved, silenced}
use pmeow.Alerts.Store.{AlertRecord, AlertDb, get_alerts}
use pmeow.Servers.{ServerRecord, get_server_by_id}
use pmeow.Persons.Bindings.{Principal}
use pmeow.Auth.Middleware.{admin_only}
use pmeow.Tasks.Queries.{take, drop, name_or}
use pmeow.Tasks.Service.{RouteAnswer}
use pmeow.Routes.Answers.{after_admin}

pub record NamedAlert (V D : Type 0) : Type 0 where
  pub server_name : String
  pub alert : AlertRecord V D

-- A status of a query: none where the text names none, and none inside where it is missing or empty.
abbrev pub asked_status : Option String → Option (Option AlertStatus)
asked_status none = some none
asked_status (some s) =
    if s == ""
    then some none
    else if s == "active"
    then some (some active)
    else if s == "resolved"
    then some (some resolved)
    else if s == "silenced"
    then some (some silenced)
    else none

abbrev pub sliced {ℓ} : {A : Type ℓ} → ℕ → ℕ → List A → List A
sliced offset limit xs =
    if ltb 0 limit then take limit (drop offset xs) else if ltb 0 offset then drop offset xs else xs

module _ {V D : Type 0} where
  abbrev pub name_alert : List ServerRecord → AlertRecord V D → NamedAlert V D
  name_alert servers a = record {
    server_name = name_or a.server_id (get_server_by_id a.server_id servers);
    alert = a;
  }

  abbrev pub matching :
      AlertDb V D → Option String → Option (Option AlertStatus) → List (AlertRecord V D)
  matching db sid none = []
  matching db sid (some status) = get_alerts db sid status

  unfoldable pub list_alerts_route :
      Option Principal
      → Option String
      → Option String
      → ℕ
      → ℕ
      → List ServerRecord
      → AlertDb V D
      → RouteAnswer (List (NamedAlert V D))
  unfolding get_alerts get_server_by_id
  list_alerts_route p sid status offset limit servers db =
      after_admin (admin_only p)
        (sliced offset limit (map (name_alert servers) (matching db sid (asked_status status))))
