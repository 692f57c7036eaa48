-- ===== src/Security/Store.antt =====
-- The table of security events: server/core/src/db/security-events.ts. A transaction runs at one
-- `now`. The statements here do not test the unique index on open events.
use Prim.Native.String
use pmeow.Prelude.{
  ℕ, suc, String, Bool, true, false, not, ◌&&◌, [], ◌∷◌, ◌++◌, Option, none, some, ◌==◌, nat_eq,
  string_eq, if◌then◌else◌, find, update_where,
}
use pmeow.Security.Types.{
  SecurityEventType, marked_safe, unresolve, event_name, SecurityFinding, SecurityEventRecord,
  SecurityDb, Platform,
}

unfoldable pub get_security_event_by_id : ℕ → SecurityDb → Option SecurityEventRecord
get_security_event_by_id id db = find (λ r. r.id == id) db.rows

abbrev pub new_event : ℕ → ℕ → SecurityFinding → SecurityEventRecord
new_event id now input = record {
  id = id;
  server_id = input.server_id;
  event_type = input.event_type;
  fingerprint = input.fingerprint;
  details = input.details;
  resolved = false;
  resolved_by = none;
  created_at = now;
  resolved_at = none;
}

unfoldable pub create_security_event :
    ℕ → SecurityFinding → SecurityDb → SecurityDb × SecurityEventRecord
create_security_event now input db =
    let row = new_event db.next_id now input in
    (record { rows = db.rows ++ row ∷ []; next_id = suc db.next_id }, row)

abbrev pub is_open : String → SecurityEventType → String → SecurityEventRecord → Bool
is_open sid kind fp r =
    (r.server_id == sid && (event_name r.event_type == event_name kind && r.fingerprint == fp))
    && not r.resolved

unfoldable pub find_open_security_event :
    String → SecurityEventType → String → SecurityDb → Option SecurityEventRecord
find_open_security_event sid kind fp db = find (is_open sid kind fp) db.rows

abbrev pub close : ℕ → String → SecurityEventRecord → SecurityEventRecord
close at by r = record r { resolved = true; resolved_by = some by; resolved_at = some at }

abbrev pub reopen : SecurityEventRecord → SecurityEventRecord
reopen r = record r { resolved = false; resolved_by = none; resolved_at = none }

abbrev pub update_id : ℕ → (SecurityEventRecord → SecurityEventRecord) → SecurityDb → SecurityDb
update_id id f db = record db { rows = update_where (λ r. r.id == id) f db.rows }

abbrev pub is_audit : SecurityEventType → Bool
is_audit marked_safe = true
is_audit unresolve = true
is_audit _ = false

pub data UnresolveError : Type 0 where
  not_found not_resolved duplicate_open : UnresolveError

pub data UnresolveResult : Type 0 where
  error : UnresolveError → UnresolveResult
  reopened : UnresolveResult

-- An audit event is created and closed at once.
unfoldable pub write_audit : ℕ → String → SecurityFinding → SecurityDb → SecurityDb
unfolding create_security_event
write_audit now by input db =
    let created = create_security_event now input db in
    update_id created.1.id (close now by) created.0

module _ (js : Platform) where
  -- The audit event that goes with a change of `existing`.
  abbrev pub audit_of : SecurityEventType → SecurityEventRecord → ℕ → String → SecurityFinding
  audit_of kind existing now reason = record {
    server_id = existing.server_id;
    event_type = kind;
    fingerprint = String.◌++◌ (event_name kind) (
        String.◌++◌ ":"
          (String.◌++◌ (js.string_of existing.id) (String.◌++◌ ":" (js.string_of now))));
    details = record {
      reason = reason;
      pid = existing.details.pid;
      user = existing.details.user;
      command = existing.details.command;
      gpu_index = none;
      task_id = existing.details.task_id;
      keyword = none;
      target_event_id = some existing.id;
      duration_minutes = none;
      used_memory_mb = none;
      gpu_utilization_percent = none;
    };
  }

  -- The table afterwards, or none where there is no such event. An event that is already resolved is
  -- left as it is.
  unfoldable pub mark_security_event_safe : ℕ → ℕ → String → String → SecurityDb → Option SecurityDb
  unfolding get_security_event_by_id write_audit
  mark_security_event_safe now id by reason db = elim (get_security_event_by_id id db) [
    | none ↦ none
    | some existing ↦
        if existing.resolved
        then some db
        else some (
            write_audit now by (audit_of marked_safe existing now reason)
              (update_id id (close now by) db))
  ]

  unfoldable pub unresolve_security_event :
      ℕ → ℕ → String → String → SecurityDb → SecurityDb × UnresolveResult
  unfolding get_security_event_by_id write_audit find_open_security_event
  unresolve_security_event now id actor reason db = elim (get_security_event_by_id id db) [
    | none ↦ (db, error not_found)
    | some existing ↦
        if is_audit existing.event_type
        then (db, error not_found)
        else if not existing.resolved
        then (db, error not_resolved)
        else elim (find_open_security_event existing.server_id existing.event_type
            existing.fingerprint db) [
              | some duplicate ↦ (db, error duplicate_open)
              | none ↦ (
                write_audit now actor (audit_of unresolve existing now reason)
                    (update_id id reopen db),
                reopened,
              )
            ]
  ]
