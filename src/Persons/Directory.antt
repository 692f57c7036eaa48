-- ===== src/Persons/Directory.antt =====
-- What a person uses now: `getPersonDirectory` of server/core/src/person/service.ts. Measured numbers are of any type with the arithmetic that the code
-- uses. The two caches of one call are left out: they keep what was read from the same tables.
use pmeow.Prelude.{
  ℕ, ◌+◌, String, Bool, true, false, not, ◌&&◌, ◌||◌, List, [], ◌∷◌, ◌++◌, map, Option, none, some,
  ◌==◌, string_eq, if◌then◌else◌, ltb, any, find, select, sort, length, unique,
}
use Prim.Native.String
use pmeow.Persons.Records.{PersonRecord, is_active, list_persons}
use pmeow.Persons.Bindings.{PersonBindingRecord, BindingDb, begun, not_over}
use pmeow.Persons.Scope.{get_bindings_by_person_id}
use pmeow.Snapshots.Store.{SnapshotDb, SnapshotWithGpus, get_latest_snapshot}
use pmeow.Servers.{ServerRecord}
use pmeow.Tasks.Types.{is_running, is_queued}
use pmeow.Tasks.Store.{TaskRow}
use pmeow.Tasks.Queries.{TaskRecord, get_tasks}

-- `compare_names` says whether the first name may stand before the second, as `localeCompare` does.
pub record Numbers (V : Type 0) : Type 0 where
  pub zero : V
  pub add : V → V → V
  pub less : V → V → Bool
  pub same : V → V → Bool
  pub round_metric : V → V
  pub compare_names : String → String → Bool

pub record UserResourceSummary (V : Type 0) : Type 0 where
  pub user : String
  pub total_cpu_percent : V
  pub total_rss_mb : V
  pub total_vram_mb : V

pub record PersonDirectoryItem (V : Type 0) : Type 0 where
  pub person : PersonRecord
  pub current_cpu_percent : V
  pub current_memory_mb : V
  pub current_vram_mb : V
  pub running_task_count : ℕ
  pub queued_task_count : ℕ
  pub active_server_count : ℕ

abbrev pub is_binding_active_now : ℕ → PersonBindingRecord → Bool
is_binding_active_now now b =
    b.enabled && (begun now b.effective_from && not_over now b.effective_to)

abbrev pub account_key : PersonBindingRecord → String
account_key b = String.◌++◌ b.server_id (String.◌++◌ "::" b.system_user)

-- The loop of `dedupeActiveBindings`, with the keys seen so far.
unfoldable pub dedupe_active : ℕ → List String → List PersonBindingRecord → List PersonBindingRecord
dedupe_active now seen [] = []
dedupe_active now seen (b ∷ rest) =
    let later = dedupe_active now seen rest in
    let kept = b ∷ dedupe_active now (account_key b ∷ seen) rest in
    if not (is_binding_active_now now b)
    then later
    else if any (λ k. k == account_key b) seen
    then later
    else kept

unfoldable pub dedupe_active_bindings : ℕ → List PersonBindingRecord → List PersonBindingRecord
unfolding dedupe_active
dedupe_active_bindings now bs = dedupe_active now [] bs

-- What the bindings seen so far add up to.
pub record Usage (V : Type 0) : Type 0 where
  pub cpu : V
  pub memory : V
  pub vram : V
  pub running : ℕ
  pub queued : ℕ
  pub server_ids : List String

module _ {V R G : Type 0} (summaries : R → List (UserResourceSummary V)) where
  abbrev pub get_user_resource_summary :
      String → Option (SnapshotWithGpus R G) → Option (UserResourceSummary V)
  get_user_resource_summary user none = none
  get_user_resource_summary user (some s) =
      find (λ r. r.user == user) (summaries s.snapshot.resources)

module _ {V : Type 0} (n : Numbers V) where
  abbrev pub value_or_zero : (UserResourceSummary V → V) → Option (UserResourceSummary V) → V
  value_or_zero f none = n.zero
  value_or_zero f (some r) = f r

  abbrev pub is_positive : V → Bool
  is_positive v = n.less n.zero v

  -- The body of the loop over a person's bindings.
  unfoldable pub add_usage :
      PersonBindingRecord → Option (UserResourceSummary V) → List TaskRecord → Usage V → Usage V
  add_usage b r tasks u =
      let cpu = value_or_zero (λ s. s.total_cpu_percent) r in
      let memory = value_or_zero (λ s. s.total_rss_mb) r in
      let vram = value_or_zero (λ s. s.total_vram_mb) r in
      let running = length (select (λ t. is_running t.row.info.status) tasks) in
      let queued = length (select (λ t. is_queued t.row.info.status) tasks) in
      record {
        cpu = n.add u.cpu cpu;
        memory = n.add u.memory memory;
        vram = n.add u.vram vram;
        running = u.running + running;
        queued = u.queued + queued;
        server_ids =
            if is_positive cpu
              || (is_positive memory || (is_positive vram || (ltb 0 running || ltb 0 queued)))
            then u.server_ids ++ b.server_id ∷ []
            else u.server_ids;
      }

module _ {V R G : Type 0} (n : Numbers V) (summaries : R → List (UserResourceSummary V)) where
  module _ (now : ℕ) (servers : List ServerRecord) (db : BindingDb) (rows : List TaskRow)
      (snapshots : SnapshotDb R G) where
    abbrev pub tasks_of : PersonBindingRecord → List TaskRecord
    tasks_of b = get_tasks now servers db rows (record {
      server_id = some b.server_id;
      status = none;
      user = some b.system_user;
      person_id = none;
      limit = none;
      offset = none;
    })

    unfoldable pub usage_of : List PersonBindingRecord → Usage V → Usage V
    unfolding add_usage get_tasks get_latest_snapshot
    usage_of [] u = u
    usage_of (b ∷ rest) u = usage_of rest (
        add_usage n b
          (get_user_resource_summary summaries b.system_user
            (get_latest_snapshot b.server_id snapshots))
          (tasks_of b) u)

    abbrev pub no_usage : Usage V
    no_usage = record {
      cpu = n.zero;
      memory = n.zero;
      vram = n.zero;
      running = 0;
      queued = 0;
      server_ids = [];
    }

    abbrev pub directory_item : PersonRecord → Usage V → PersonDirectoryItem V
    directory_item p u = record {
      person = p;
      current_cpu_percent = n.round_metric u.cpu;
      current_memory_mb = n.round_metric u.memory;
      current_vram_mb = u.vram;
      running_task_count = u.running;
      queued_task_count = u.queued;
      active_server_count = length (unique u.server_ids);
    }

    -- `comparePersonDirectoryItems`: whether the left may stand before the right.
    abbrev pub compare_person_directory_items : PersonDirectoryItem V → PersonDirectoryItem V → Bool
    compare_person_directory_items l r =
        if not (is_active l.person.status) && is_active r.person.status
        then false
        else if is_active l.person.status && not (is_active r.person.status)
        then true
        else if not (n.same l.current_cpu_percent r.current_cpu_percent)
        then n.less r.current_cpu_percent l.current_cpu_percent
        else if not (n.same l.current_memory_mb r.current_memory_mb)
        then n.less r.current_memory_mb l.current_memory_mb
        else if not (n.same l.current_vram_mb r.current_vram_mb)
        then n.less r.current_vram_mb l.current_vram_mb
        else n.compare_names l.person.display_name r.person.display_name

    unfoldable pub get_person_directory :
        (String → String → Bool) → List PersonRecord → List (PersonDirectoryItem V)
    unfolding list_persons sort dedupe_active_bindings get_bindings_by_person_id usage_of
    get_person_directory name_before persons = sort compare_person_directory_items (
        map
          (λ p.
            directory_item p
              (usage_of (dedupe_active_bindings now (get_bindings_by_person_id p.id db)) no_usage))
          (list_persons name_before true persons))
