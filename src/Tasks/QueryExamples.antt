-- ===== src/Tasks/QueryExamples.antt =====
-- Three tasks of two accounts, listed, paged and cancelled.
use pmeow.Prelude.{
  String, List, [], ◌∷◌, ◌*◌, ◌&&◌, none, ◌≡◌, ◌≢◌, true, false, pos, All, length, string_eq,
  eq_iff, is_some,
}
use pmeow.Tasks.Types.{queued, background, shared}
use pmeow.Tasks.Store.{TaskRow}
use pmeow.Servers.{ServerRecord}
use pmeow.Nodes.{AgentSessionRegistry, get_session_by_server_id}
use pmeow.Persons.Bindings.{BindingDb, person, manual, can_access_task}
use pmeow.Tasks.Queries.{TaskQueryFilter, take, get_tasks, count_tasks}
use pmeow.Tasks.Service.{list_tasks_for_principal, cancel_task_route}
use pmeow.Tasks.Pages.{unlimited, first_pages, first_pages-get_tasks}
use pmeow.Tasks.Commands.{
  IsAllowed, is_sent, is_answered, list_tasks_for_principal-can_access_task,
  cancel_task_route-commands,
}

abbrev task : String → String → TaskRow
task id user = record {
  server_id = "s1";
  info = record {
    task_id = id;
    status = queued;
    command = "run";
    cwd = "/";
    user = user;
    launch_mode = background;
    require_vram_mb = 0;
    requested_vram_mb = none;
    vram_mode = shared;
    require_gpu_count = 1;
    gpu_ids = none;
    priority = pos 10;
    created_at = 900;
    started_at = none;
    finished_at = none;
    pid = none;
    exit_code = none;
    end_reason = none;
    assigned_gpus = none;
    declared_vram_per_gpu = none;
    auto_observe_window_sec = none;
    auto_peak_vram_by_gpu_mb = none;
    auto_reclaimed_vram_by_gpu_mb = none;
    auto_reclaim_done = false;
    schedule_history = [];
  };
}

abbrev rows : List TaskRow
rows = task "a" "ann" ∷ task "b" "bob" ∷ task "c" "ann" ∷ []

abbrev servers : List ServerRecord
servers =
    record { id = "s1"; name = "one"; agent_id = "agent"; created_at = 1; updated_at = 1 } ∷ []

abbrev registry : AgentSessionRegistry
registry = record {
  sessions = ("agent", record { agent_id = "agent"; server_id = "s1" }) ∷ [];
  last_report_at = [];
}

abbrev bindings : BindingDb
bindings = record {
  bindings =
      record {
        id = 1;
        person_id = "p";
        server_id = "s1";
        system_user = "ann";
        source = manual;
        enabled = true;
        effective_from = none;
        effective_to = none;
        created_at = 1;
        updated_at = 1;
      }
      ∷ [];
  next_id = 2;
}

abbrev no_filter : TaskQueryFilter
no_filter = record {
  server_id = none;
  status = none;
  user = none;
  person_id = none;
  limit = none;
  offset = none;
}

first_pages-get_tasks_example :
    (first_pages 5 servers bindings rows 2 2 no_filter
      ≡ take (2 * 2) (get_tasks 5 servers bindings rows (unlimited no_filter)))
    × (length (get_tasks 5 servers bindings rows (unlimited no_filter))
        ≡ count_tasks 5 servers bindings rows no_filter)
first_pages-get_tasks_example = first_pages-get_tasks 5 servers bindings rows 2 2 no_filter

p_not_empty : ◌≢◌ {A = String} "p" ""
p_not_empty e = cc ((eq_iff {A = String} "p" "").1 e)

list_tasks_for_principal-can_access_task_example :
    All
      (λ t. can_access_task (person "p") t.row.server_id t.row.info.user bindings ≡ true)
      (list_tasks_for_principal 5 servers bindings rows (person "p") no_filter)
list_tasks_for_principal-can_access_task_example =
    list_tasks_for_principal-can_access_task 5 servers bindings rows "p" no_filter p_not_empty

cancel_task_route-commands_example :
    All
      (IsAllowed servers bindings rows (person "p") "s1" "a")
      (cancel_task_route servers bindings rows registry (person "p") "s1" "a").1
    × (is_sent (cancel_task_route servers bindings rows registry (person "p") "s1" "a").1 ≡ (
        is_answered (cancel_task_route servers bindings rows registry (person "p") "s1" "a").0
        && is_some (get_session_by_server_id "s1" registry)))
cancel_task_route-commands_example =
    cancel_task_route-commands servers bindings rows registry (person "p") "s1" "a"
