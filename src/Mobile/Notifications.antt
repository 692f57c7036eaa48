-- ===== src/Mobile/Notifications.antt =====
-- Local notifications: apps/mobile/src/store/notifications.ts and
-- apps/mobile/src/lib/notification-inbox.ts. The texts for the reader are left out. Whether the application is
-- in the foreground and whether the platform has shown a notification are arguments, and so are the drawn id
-- and the time of an item. A rule about idle GPUs is of any type. One
-- notification is dealt with before the next.
use pmeow.Prelude.{
  ℕ, String, Bool, true, false, not, ◌&&◌, List, [], ◌∷◌, Option, none, some, string_eq,
  if◌then◌else◌, map_has,
}
use pmeow.Alerts.Types.{AlertStatus, is_active}
use pmeow.Persons.Bindings.{Principal, admin, person}
use pmeow.Tasks.Queries.{take}

pub data NotificationInboxKind : Type 0 where
  task alert security idle : NotificationInboxKind

pub record NotificationInboxItem : Type 0 where
  pub id : String
  pub kind : NotificationInboxKind
  pub timestamp : ℕ
  pub server_id : Option String
  pub task_id : Option String

abbrev pub max_notification_inbox_items : ℕ
max_notification_inbox_items = 50

unfoldable pub push_notification_inbox_item :
    List NotificationInboxItem → NotificationInboxItem → List NotificationInboxItem
push_notification_inbox_item current next = take max_notification_inbox_items (next ∷ current)

pub record MobileNotificationSettings (R : Type 0) : Type 0 where
  pub notifications_enabled : Bool
  pub admin_task_events : Bool
  pub admin_alerts : Bool
  pub admin_security : Bool
  pub person_task_events : Bool
  pub idle_server_rules : List (String × R)

-- A session is none where nobody is signed in.
pub record MobileState (R : Type 0) : Type 0 where
  pub session : Option Principal
  pub settings : MobileNotificationSettings R
  pub notification_permission_granted : Option Bool
  pub notification_inbox : List NotificationInboxItem

abbrev pub is_admin : Option Principal → Bool
is_admin (some admin) = true
is_admin _ = false

abbrev pub is_person : Option Principal → Bool
is_person (some (person id)) = true
is_person _ = false

module _ {R : Type 0} where
  -- The state, and whether the notification was shown.
  unfoldable pub dispatch_notification :
      Bool → Bool → NotificationInboxItem → MobileState R → MobileState R × Bool
  unfolding push_notification_inbox_item
  dispatch_notification foreground shown item s =
      if not foreground
      then (s, false)
      else if shown
      then (
        record s {
          notification_permission_granted = some true;
          notification_inbox = push_notification_inbox_item s.notification_inbox item;
        },
        true,
      )
      else (s, false)

  abbrev pub task_events_wanted : Option Principal → MobileNotificationSettings R → Bool
  task_events_wanted none settings = false
  task_events_wanted (some admin) settings =
      settings.notifications_enabled && settings.admin_task_events
  task_events_wanted (some (person id)) settings =
      settings.notifications_enabled && settings.person_task_events

  module _ (foreground shown : Bool) (id : String) (now : ℕ) where
    -- `maybeNotifyTaskEvent`
    unfoldable pub maybe_notify_task_event : String → String → MobileState R → MobileState R
    unfolding dispatch_notification
    maybe_notify_task_event sid task_id s =
        if task_events_wanted s.session s.settings
        then (dispatch_notification foreground shown
            (record {
              id = id;
              kind = task;
              timestamp = now;
              server_id = some sid;
              task_id = some task_id;
            })
            s).0
        else s

    -- `maybeNotifyAlert`, by the status that the alert has now.
    unfoldable pub maybe_notify_alert : String → AlertStatus → MobileState R → MobileState R
    unfolding dispatch_notification
    maybe_notify_alert sid to_status s =
        if is_admin s.session
          && (s.settings.notifications_enabled && (s.settings.admin_alerts && is_active to_status))
        then (dispatch_notification foreground shown
            (record {
              id = id;
              kind = alert;
              timestamp = now;
              server_id = some sid;
              task_id = none;
            })
            s).0
        else s

    -- `maybeNotifySecurityEvent`
    unfoldable pub maybe_notify_security_event : String → Bool → MobileState R → MobileState R
    unfolding dispatch_notification
    maybe_notify_security_event sid resolved s =
        if is_admin s.session
          && (s.settings.notifications_enabled && (s.settings.admin_security && not resolved))
        then (dispatch_notification foreground shown
            (record {
              id = id;
              kind = security;
              timestamp = now;
              server_id = some sid;
              task_id = none;
            })
            s).0
        else s

    -- `maybeNotifyServerIdle`
    unfoldable pub maybe_notify_server_idle : String → MobileState R → MobileState R × Bool
    unfolding dispatch_notification
    maybe_notify_server_idle sid s =
        if is_person s.session
          && (s.settings.notifications_enabled && map_has sid s.settings.idle_server_rules)
        then dispatch_notification foreground shown
            (record { id = id; kind = idle; timestamp = now; server_id = some sid; task_id = none })
            s
        else (s, false)

pub data Occasion : Type 0 where
  task_event : String → String → Occasion
  alert_change : String → AlertStatus → Occasion
  security_event : String → Bool → Occasion
  server_idle : String → Occasion

-- The four functions, by what has happened.
unfoldable pub notify :
    {R : Type 0} → Bool → Bool → String → ℕ → Occasion → MobileState R → MobileState R
unfolding maybe_notify_task_event maybe_notify_alert maybe_notify_security_event
    maybe_notify_server_idle
notify foreground shown id now (task_event sid task_id) s =
    maybe_notify_task_event foreground shown id now sid task_id s
notify foreground shown id now (alert_change sid to_status) s =
    maybe_notify_alert foreground shown id now sid to_status s
notify foreground shown id now (security_event sid resolved) s =
    maybe_notify_security_event foreground shown id now sid resolved s
notify foreground shown id now (server_idle sid) s =
    (maybe_notify_server_idle foreground shown id now sid s).0

pub record Happening : Type 0 where
  pub foreground : Bool
  pub shown : Bool
  pub id : String
  pub now : ℕ
  pub occasion : Occasion

unfoldable pub notify_all : {R : Type 0} → List Happening → MobileState R → MobileState R
unfolding notify
notify_all [] s = s
notify_all (h ∷ hs) s = notify_all hs (notify h.foreground h.shown h.id h.now h.occasion s)
