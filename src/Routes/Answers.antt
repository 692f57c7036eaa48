-- ===== src/Routes/Answers.antt =====
-- What guards the routes of server/runtime/src/routes: `adminOnly` before a handler, and the check
-- of the person in one. A handler answers with the state afterwards.
use pmeow.Prelude.{String, Option, if◌then◌else◌}
use pmeow.Persons.Bindings.{Principal}
use pmeow.Auth.Login.{can_access_person_id}
use pmeow.Auth.Middleware.{Checked, rejected, next, admin_only}
use pmeow.Tasks.Service.{RouteAnswer, status, answered}

module _ {ℓ κ} {S : Type ℓ} {A : Type κ} where
  abbrev pub after_check : Checked → S → S × RouteAnswer A → S × RouteAnswer A
  after_check (rejected code) s t = (s, status code)
  after_check (next q) s t = t

  -- A handler behind `adminOnly`.
  abbrev pub for_admin : Option Principal → S → S × RouteAnswer A → S × RouteAnswer A
  for_admin p s t = after_check (admin_only p) s t

  -- A handler that asks for access to a person.
  abbrev pub for_person : Option Principal → String → S → S × RouteAnswer A → S × RouteAnswer A
  for_person p id s t = if can_access_person_id p id then t else (s, status 403)

module _ {ℓ} {A : Type ℓ} where
  -- `if (!found) { res.status(404) … }`
  abbrev pub found_or_404 : Option A → RouteAnswer A
  found_or_404 Option.none = status 404
  found_or_404 (Option.some a) = answered a

  -- A handler behind `adminOnly` that only reads.
  abbrev pub after_admin : Checked → A → RouteAnswer A
  after_admin (rejected code) a = status code
  after_admin (next p) a = answered a
