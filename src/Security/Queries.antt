-- ===== src/Security/Queries.antt =====
-- `listSecurityEvents` of server/core/src/db/security-events.ts, and the route on it in
-- server/runtime/src/routes/security-routes.ts. A text of a query that is empty is as if it were missing, and a
-- limit is a natural number.
use pmeow.Prelude.{
  ℕ, String, Bool, true, false, not, ◌&&◌, ◌||◌, List, Option, none, some, ◌==◌, nat_eq, string_eq,
  leb, if◌then◌else◌, select, sort,
}
use pmeow.Security.Types.{SecurityEventType, event_name, SecurityEventRecord, SecurityDb}
use pmeow.Persons.Bindings.{Principal}
use pmeow.Auth.Middleware.{admin_only}
use pmeow.Routes.Answers.{after_admin}
use pmeow.Tasks.Queries.{take}
use pmeow.Tasks.Service.{RouteAnswer}

pub record SecurityEventQuery : Type 0 where
  pub server_id : Option String
  pub resolved : Option Bool
  pub event_type : Option SecurityEventType
  pub limit : Option ℕ

abbrev pub asks_server : Option String → String → Bool
asks_server none sid = true
asks_server (some s) sid = s == "" || sid == s

abbrev pub asks_resolved : Option Bool → Bool → Bool
asks_resolved none b = true
asks_resolved (some true) b = b
asks_resolved (some false) b = not b

abbrev pub asks_type : Option SecurityEventType → SecurityEventType → Bool
asks_type none t = true
asks_type (some u) t = event_name t == event_name u

-- LIMIT, unless it is missing or 0.
abbrev pub limit_to {ℓ} : {A : Type ℓ} → Option ℕ → List A → List A
limit_to none xs = xs
limit_to (some n) xs = if n == 0 then xs else take n xs

unfoldable pub list_security_events : SecurityEventQuery → SecurityDb → List SecurityEventRecord
unfolding sort
list_security_events query db = limit_to query.limit (
    sort (λ a b. leb b.created_at a.created_at)
      (select
        (λ r.
          asks_server query.server_id r.server_id
          && (asks_resolved query.resolved r.resolved && asks_type query.event_type r.event_type))
        db.rows))

abbrev pub is_true : Option String → Option Bool
is_true none = none
is_true (some s) = some (s == "true")

-- GET /security/events
unfoldable pub list_events_route :
    Option Principal
    → Option String
    → Option String
    → Option ℕ
    → SecurityDb
    → RouteAnswer (List SecurityEventRecord)
unfolding list_security_events
list_events_route p sid resolved limit db = after_admin (admin_only p) (
    list_security_events
      (record { server_id = sid; resolved = is_true resolved; event_type = none; limit = limit })
      db)
