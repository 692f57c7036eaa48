-- ===== src/Mobile/Allowed.antt =====
-- What the inbox of notifications can hold: apps/mobile/src/store/notifications.ts.
use pmeow.Prelude.{
  ℕ, zero, suc, String, Bool, true, false, not, ◌&&◌, List, [], ◌∷◌, Option, none, some, ◌≡◌, refl,
  arith, length, leb, if◌then◌else◌, All, string_eq, map_has, subst,
}
use pmeow.Alerts.Types.{is_active}
use pmeow.Persons.Bindings.{Principal, admin, person}
use pmeow.Tasks.Queries.{take}
use pmeow.Tasks.Commands.{All-take}
use pmeow.Mobile.Notifications.{
  NotificationInboxKind, task, alert, security, idle, NotificationInboxItem, MobileState,
  max_notification_inbox_items, push_notification_inbox_item, dispatch_notification, is_admin,
  is_person, task_events_wanted, maybe_notify_task_event, maybe_notify_alert,
  maybe_notify_security_event, maybe_notify_server_idle, Occasion, task_event, alert_change,
  security_event, server_idle, notify, Happening, notify_all,
}

-- Whether a principal may be notified of this.
abbrev pub fits : Option Principal → NotificationInboxKind → Bool
fits none kind = false
fits (some p) task = true
fits (some admin) idle = false
fits (some admin) kind = true
fits (some (person id)) idle = true
fits (some (person id)) kind = false

length-take {ℓ} : {A : Type ℓ} (n : ℕ) (xs : List A) → leb (length (take n xs)) n ≡ true
length-take zero xs = refl
length-take (suc n) [] = ground arith
length-take (suc n) (x ∷ xs) = ground (arith, length-take n xs)

-- The inbox is within its bound, and fits the session.
pub record IsAllowed {R : Type 0} (session : Option Principal) (s : MobileState R) : Type 0 where
  pub same : s.session ≡ session
  pub bounded : leb (length s.notification_inbox) max_notification_inbox_items ≡ true
  pub fitting : All (λ i. fits session i.kind ≡ true) s.notification_inbox

module _ {R : Type 0} (session : Option Principal) where
  dispatch-IsAllowed :
      (foreground shown : Bool) (item : NotificationInboxItem) (s : MobileState R)
      → fits session item.kind ≡ true
      → IsAllowed session s
      → IsAllowed session (dispatch_notification foreground shown item s).0
  unfolding dispatch_notification push_notification_inbox_item
  dispatch-IsAllowed false shown item s f h = h
  dispatch-IsAllowed true false item s f h = h
  dispatch-IsAllowed true true item s f h = record {
    same = h.same;
    bounded = length-take max_notification_inbox_items (item ∷ s.notification_inbox);
    fitting = All-take _ max_notification_inbox_items (item ∷ s.notification_inbox) (f, h.fitting);
  }

  guarded-IsAllowed :
      (b : Bool) (t s : MobileState R)
      → (b ≡ true → IsAllowed session t)
      → IsAllowed session s
      → IsAllowed session (if b then t else s)
  guarded-IsAllowed true t s f h = f refl
  guarded-IsAllowed false t s f h = h

  guarded_pair-IsAllowed :
      (b : Bool) (t : MobileState R × Bool) (s : MobileState R)
      → (b ≡ true → IsAllowed session t.0)
      → IsAllowed session s
      → IsAllowed session (if b then t else (s, false)).0
  guarded_pair-IsAllowed true t s f h = f refl
  guarded_pair-IsAllowed false t s f h = h

  of_session :
      (kind : NotificationInboxKind) (s : MobileState R)
      → IsAllowed session s
      → fits s.session kind ≡ true
      → fits session kind ≡ true
  of_session kind s h f = subst (λ p. fits p kind ≡ true) h.same f

task-fits :
    {R : Type 0} (s : MobileState R)
    → task_events_wanted s.session s.settings ≡ true
    → fits s.session task ≡ true
task-fits s h = go s.session h
  where
    go : (p : Option Principal) → task_events_wanted p s.settings ≡ true → fits p task ≡ true
    go none e = e
    go (some p) e = refl

admin-fits :
    (p : Option Principal) (b : Bool)
    → (is_admin p && b) ≡ true
    → (fits p alert ≡ true) × (fits p security ≡ true)
admin-fits none b e = absurd (cc)
admin-fits (some admin) b e = (refl, refl)
admin-fits (some (person id)) b e = absurd (cc)

person-fits : (p : Option Principal) (b : Bool) → (is_person p && b) ≡ true → fits p idle ≡ true
person-fits none b e = absurd (cc)
person-fits (some admin) b e = absurd (cc)
person-fits (some (person id)) b e = refl

module _ {R : Type 0} (session : Option Principal) where
  notify-IsAllowed :
      (foreground shown : Bool) (id : String) (now : ℕ) (o : Occasion) (s : MobileState R)
      → IsAllowed session s
      → IsAllowed session (notify foreground shown id now o s)
  unfolding notify maybe_notify_task_event maybe_notify_alert maybe_notify_security_event
      maybe_notify_server_idle
  notify-IsAllowed fg shown id now (task_event sid task_id) s h =
      guarded-IsAllowed session (task_events_wanted s.session s.settings) _ s
        (λ e.
          dispatch-IsAllowed session fg shown _ s (of_session session task s h (task-fits s e)) h)
        h
  notify-IsAllowed fg shown id now (alert_change sid to_status) s h =
      guarded-IsAllowed session
        (is_admin s.session
          && (s.settings.notifications_enabled && (s.settings.admin_alerts && is_active to_status)))
        _ s
        (λ e.
          dispatch-IsAllowed session fg shown _ s
            (of_session session alert s h (admin-fits s.session _ e).0) h)
        h
  notify-IsAllowed fg shown id now (security_event sid resolved) s h =
      guarded-IsAllowed session
        (is_admin s.session
          && (s.settings.notifications_enabled && (s.settings.admin_security && not resolved)))
        _ s
        (λ e.
          dispatch-IsAllowed session fg shown _ s
            (of_session session security s h (admin-fits s.session _ e).1) h)
        h
  notify-IsAllowed fg shown id now (server_idle sid) s h =
      guarded_pair-IsAllowed session
        (is_person s.session
          && (s.settings.notifications_enabled && map_has sid s.settings.idle_server_rules))
        _ s
        (λ e.
          dispatch-IsAllowed session fg shown _ s
            (of_session session idle s h (person-fits s.session _ e)) h)
        h

  -- From an inbox of at most 50 items that fit the session, any sequence of task events, alert
  -- changes, security events and idle servers leaves the session as it is and such an inbox: an
  -- administrator is never notified of idle servers, a person never of alerts or security events,
  -- and nobody who is not signed in of anything.
  pub notify_all-IsAllowed :
      (hs : List Happening) (s : MobileState R)
      → IsAllowed session s
      → IsAllowed session (notify_all hs s)
  unfolding notify_all
  notify_all-IsAllowed [] s h = h
  notify_all-IsAllowed (x ∷ hs) s h =
      notify_all-IsAllowed hs _ (notify-IsAllowed x.foreground x.shown x.id x.now x.occasion s h)
