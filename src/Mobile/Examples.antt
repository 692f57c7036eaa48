-- ===== src/Mobile/Examples.antt =====
-- Notifications of an administrator who is not told of security events.
use pmeow.Prelude.{ℕ, true, false, [], ◌∷◌, none, some, refl}
use pmeow.Alerts.Types.{active}
use pmeow.Persons.Bindings.{admin}
use pmeow.Mobile.Notifications.{
  MobileState, Happening, Occasion, task_event, alert_change, security_event, server_idle,
  notify_all,
}
use pmeow.Mobile.Allowed.{IsAllowed, notify_all-IsAllowed}

abbrev signed_in : MobileState ℕ
signed_in = record {
  session = some admin;
  settings = record {
    notifications_enabled = true;
    admin_task_events = true;
    admin_alerts = true;
    admin_security = false;
    person_task_events = true;
    idle_server_rules = ("s", 1) ∷ [];
  };
  notification_permission_granted = none;
  notification_inbox = [];
}

abbrev happens : Occasion → Happening
happens o = record { foreground = true; shown = true; id = "n"; now = 9; occasion = o }

notify_all-IsAllowed_example : IsAllowed (some admin) (
    notify_all
      (happens (task_event "s" "t")
        ∷ happens (alert_change "s" active)
        ∷ happens (security_event "s" false)
        ∷ happens (server_idle "s")
        ∷ [])
      signed_in)
notify_all-IsAllowed_example =
    notify_all-IsAllowed (some admin)
      (happens (task_event "s" "t")
        ∷ happens (alert_change "s" active)
        ∷ happens (security_event "s" false)
        ∷ happens (server_idle "s")
        ∷ [])
      signed_in (record { same = refl; bounded = refl; fitting = tt })
