-- ===== src/Routes/Admin.antt =====
-- The routes that are an administrator's or that answer who one is: server/runtime/src/routes,
-- alert-routes.ts and security-routes.ts without their lists, and session-routes.ts. An id is
-- the number that the path reads as; a missing text of a body is empty.
use pmeow.Prelude.{ℕ, String, List, Option, none, some, ◌==◌, string_eq, if◌then◌else◌}
use pmeow.Alerts.Store.{AlertDb, AlertStateChange}
use pmeow.Alerts.Reconcile.{
  silence_alert, unsilence_alert, batch_silence_alerts, batch_unsilence_alerts,
}
use pmeow.Security.Types.{SecurityDb, Platform}
use pmeow.Security.Store.{
  UnresolveResult, error, reopened, mark_security_event_safe, unresolve_security_event,
}
use pmeow.Persons.Bindings.{Principal}
use pmeow.Auth.Login.{AuthPlatform, AuthDb, SessionResponse, build_session_response}
use pmeow.Tasks.Service.{RouteAnswer, status, answered}
use pmeow.Routes.Answers.{for_admin, found_or_404}

module _ {V D : Type 0} where
  -- POST /alerts/:id/silence
  unfoldable pub silence_route :
      Option Principal → ℕ → ℕ → AlertDb V D → AlertDb V D × RouteAnswer (AlertStateChange V D)
  unfolding silence_alert
  silence_route p now id db =
      let r = silence_alert now id db in for_admin p db (r.0, found_or_404 r.1)

  -- POST /alerts/:id/unsilence
  unfoldable pub unsilence_route :
      Option Principal → ℕ → ℕ → AlertDb V D → AlertDb V D × RouteAnswer (AlertStateChange V D)
  unfolding unsilence_alert
  unsilence_route p now id db =
      let r = unsilence_alert now id db in for_admin p db (r.0, found_or_404 r.1)

  -- POST /alerts/batch/silence; no ids where the body has no array.
  unfoldable pub batch_silence_route :
      Option Principal
      → ℕ
      → Option (List ℕ)
      → AlertDb V D
      → AlertDb V D × RouteAnswer (List (AlertStateChange V D))
  unfolding batch_silence_alerts
  batch_silence_route p now none db = for_admin p db (db, status 400)
  batch_silence_route p now (some ids) db =
      let w = batch_silence_alerts now ids db in for_admin p db (w.db, answered w.changes)

  -- POST /alerts/batch/unsilence
  unfoldable pub batch_unsilence_route :
      Option Principal
      → ℕ
      → Option (List ℕ)
      → AlertDb V D
      → AlertDb V D × RouteAnswer (List (AlertStateChange V D))
  unfolding batch_unsilence_alerts
  batch_unsilence_route p now none db = for_admin p db (db, status 400)
  batch_unsilence_route p now (some ids) db =
      let w = batch_unsilence_alerts now ids db in for_admin p db (w.db, answered w.changes)

-- `by || "admin"`
abbrev pub or_admin : String → String
or_admin by = if by == "" then "admin" else by

abbrev pub marked : SecurityDb → Option SecurityDb → SecurityDb × RouteAnswer (Unit {0})
marked db none = (db, status 404)
marked db (some after) = (after, answered tt)

abbrev pub unresolved : UnresolveResult → RouteAnswer (Unit {0})
unresolved (error e) = status 400
unresolved reopened = answered tt

module _ (js : Platform) where
  -- POST /security/events/:id/mark-safe
  unfoldable pub mark_safe_route :
      Option Principal → ℕ → ℕ → String → String → SecurityDb → SecurityDb × RouteAnswer (Unit {0})
  unfolding mark_security_event_safe
  mark_safe_route p now id by reason db =
      for_admin p db (marked db (mark_security_event_safe js now id (or_admin by) reason db))

  -- POST /security/events/:id/unresolve
  unfoldable pub unresolve_route :
      Option Principal → ℕ → ℕ → String → String → SecurityDb → SecurityDb × RouteAnswer (Unit {0})
  unfolding unresolve_security_event
  unresolve_route p now id actor reason db =
      let r = unresolve_security_event js now id (or_admin actor) reason db in
      for_admin p db (r.0, unresolved r.1)

module _ {V : Type 0} (js : AuthPlatform V) where
  -- GET /session/me
  unfoldable pub session_route : Option Principal → AuthDb V → RouteAnswer SessionResponse
  unfolding build_session_response
  session_route none db = status 401
  session_route (some p) db = answered (build_session_response js db p)
