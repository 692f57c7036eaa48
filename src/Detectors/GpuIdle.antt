-- ===== src/Detectors/GpuIdle.antt =====
-- Memory held on idle cards: `detectGpuIdle` of server/core/src/alert/detectors.ts, over its part of the
-- `AlertStateStore` (server/core/src/alert/state-store.ts): the tracked processes by their keys, and
-- per server the keys of the last report. Percentages are of any type with the tests and the
-- arithmetic that the code uses.
use Prim.Native.String
use Prim.Native.Char.{code}
use pmeow.Prelude.{
  ℕ, ◌+◌, ◌-◌, ◌*◌, ◌/◌, String, Bool, true, false, not, ◌&&◌, ◌||◌, List, [], ◌∷◌, ◌++◌, Option,
  none, some, ◌==◌, nat_eq, string_eq, if◌then◌else◌, leb, any, select, map_get, map_set,
  map_delete,
}
use pmeow.Alerts.Types.{gpu_idle_memory}
use pmeow.Alerts.Store.{AlertAnomaly}

pub record TaskAllocation : Type 0 where
  pub task_id : String
  pub declared_vram_mb : ℕ
  pub pid : Option ℕ
  pub user : Option String
  pub command : Option String
  pub actual_vram_mb : Option ℕ

pub record UserProcess : Type 0 where
  pub pid : ℕ
  pub user : String
  pub vram_mb : ℕ

pub record IdleCard (V : Type 0) : Type 0 where
  pub index : ℕ
  pub memory_total_mb : ℕ
  pub memory_used_mb : ℕ
  pub utilization_gpu : V
  pub task_allocations : List TaskAllocation
  pub user_processes : List UserProcess

pub record GpuProcess : Type 0 where
  pub pid : ℕ
  pub user : String
  pub command : String
  pub task_id : Option String
  pub vram_mb : ℕ

pub record TrackedProcess (V : Type 0) : Type 0 where
  pub first_seen_at : ℕ
  pub last_seen_at : ℕ
  pub gpu_index : ℕ
  pub pid : ℕ
  pub user : String
  pub command : String
  pub task_id : Option String
  pub vram_mb : ℕ
  pub gpu_utilization : V
  pub memory_percent : V

pub record IdleStore (V : Type 0) : Type 0 where
  pub tracked : List (String × TrackedProcess V)
  pub keys : List (String × List String)

pub record IdleDetails (V : Type 0) : Type 0 where
  pub gpu_index : ℕ
  pub pid : ℕ
  pub user : String
  pub command : String
  pub task_id : Option String
  pub vram_mb : ℕ
  pub gpu_utilization_percent : V
  pub gpu_memory_percent : V
  pub duration_seconds : ℕ

pub record IdleSettings (V : Type 0) : Type 0 where
  pub alert_gpu_idle_memory_percent : V
  pub alert_gpu_idle_utilization_percent : V
  pub alert_gpu_idle_duration_seconds : ℕ

-- `(used / total) * 100`, and a value rounded to a tenth.
pub record Measure (V : Type 0) : Type 0 where
  pub less : V → V → Bool
  pub zero : V
  pub percent_of : ℕ → ℕ → V
  pub round_tenth : V → V
  pub string_of : ℕ → String

abbrev or_value {ℓ} : {A : Type ℓ} → Option A → A → A
or_value none a = a
or_value (some b) a = b

unfoldable pub starts_with : String → String → Bool
starts_with String.[] s = true
starts_with (String.◌∷◌ c p) String.[] = false
starts_with (String.◌∷◌ c p) (String.◌∷◌ d s) = (code c == code d) && starts_with p s

abbrev is_empty : String → Bool
is_empty s = s == ""

-- An allocation whose process and user are known.
unfoldable pub allocated : TaskAllocation → List GpuProcess
allocated a = elim a.pid [
  | none ↦ []
  | some pid ↦ elim a.user [
    | none ↦ []
    | some user ↦
        if is_empty user
        then []
        else record {
          pid = pid;
          user = user;
          command = or_value a.command "";
          task_id = some a.task_id;
          vram_mb = or_value a.actual_vram_mb a.declared_vram_mb;
        }
          ∷ []
  ]
]

unfoldable pub allocation_processes : List TaskAllocation → List GpuProcess
unfolding allocated
allocation_processes [] = []
allocation_processes (a ∷ rest) = allocated a ++ allocation_processes rest

unfoldable pub owned_processes : List UserProcess → List GpuProcess
owned_processes [] = []
owned_processes (p ∷ rest) =
    record { pid = p.pid; user = p.user; command = ""; task_id = none; vram_mb = p.vram_mb }
    ∷ owned_processes rest

unfoldable pub collect_gpu_processes : {V : Type 0} → IdleCard V → List GpuProcess
unfolding allocation_processes owned_processes
collect_gpu_processes gpu =
    allocation_processes gpu.task_allocations ++ owned_processes gpu.user_processes

abbrev pub add_key : String → List String → List String
add_key key keys = if any (λ k. k == key) keys then keys else keys ++ key ∷ []

-- What the loops carry: the store, the keys seen, and the anomalies.
pub record Sweep (V : Type 0) : Type 0 where
  pub store : IdleStore V
  pub seen : List String
  pub anomalies : List (AlertAnomaly V (IdleDetails V))

module _ {V : Type 0} (m : Measure V) (sid : String) (settings : IdleSettings V) (now : ℕ) where
  abbrev pub gpu_prefix : ℕ → String
  gpu_prefix index =
      String.◌++◌ "gpu_idle:"
        (String.◌++◌ sid (String.◌++◌ ":" (String.◌++◌ (m.string_of index) ":")))

  abbrev pub store_key : ℕ → ℕ → String
  store_key index pid = String.◌++◌ (gpu_prefix index) (m.string_of pid)

  abbrev pub make_fingerprint : ℕ → ℕ → String
  make_fingerprint index pid =
      String.◌++◌ "gpu" (String.◌++◌ (m.string_of index) (String.◌++◌ ":pid" (m.string_of pid)))

  unfoldable pub prune_by_prefix : String → IdleStore V → IdleStore V
  unfolding starts_with
  prune_by_prefix prefix store = record store {
    tracked = select (λ e. not (starts_with prefix e.0)) store.tracked;
  }

  abbrev pub refreshed : V → V → GpuProcess → TrackedProcess V → TrackedProcess V
  refreshed utilization percent proc existing = record existing {
    last_seen_at = now;
    vram_mb = proc.vram_mb;
    gpu_utilization = utilization;
    memory_percent = percent;
    command = if is_empty proc.command then existing.command else proc.command;
  }

  abbrev pub first_tracked : ℕ → V → V → GpuProcess → TrackedProcess V
  first_tracked index utilization percent proc = record {
    first_seen_at = now;
    last_seen_at = now;
    gpu_index = index;
    pid = proc.pid;
    user = proc.user;
    command = proc.command;
    task_id = proc.task_id;
    vram_mb = proc.vram_mb;
    gpu_utilization = utilization;
    memory_percent = percent;
  }

  abbrev pub idle_anomaly : ℕ → V → GpuProcess → TrackedProcess V → AlertAnomaly V (IdleDetails V)
  idle_anomaly index percent proc existing = record {
    alert_type = gpu_idle_memory;
    value = percent;
    threshold = settings.alert_gpu_idle_memory_percent;
    fingerprint = make_fingerprint index proc.pid;
    details = some (record {
      gpu_index = index;
      pid = proc.pid;
      user = existing.user;
      command = existing.command;
      task_id = existing.task_id;
      vram_mb = existing.vram_mb;
      gpu_utilization_percent = existing.gpu_utilization;
      gpu_memory_percent = m.round_tenth percent;
      duration_seconds = ((now - existing.first_seen_at) + 500) / 1000;
    });
  }

  -- The test `now - firstSeenAt >= duration`, as a sum.
  abbrev pub is_due : TrackedProcess V → Bool
  is_due t = leb (t.first_seen_at + settings.alert_gpu_idle_duration_seconds * 1000) now

  unfoldable pub track_found :
      ℕ → V → V → GpuProcess → Option (TrackedProcess V) → Sweep V → Sweep V
  track_found index utilization percent proc none w = record {
    store = record (w.store) {
      tracked =
          map_set (store_key index proc.pid) (first_tracked index utilization percent proc)
            w.store.tracked;
    };
    seen = add_key (store_key index proc.pid) w.seen;
    anomalies = w.anomalies;
  }
  track_found index utilization percent proc (some old) w =
      let existing = refreshed utilization percent proc old in
      record {
        store = record (w.store) {
          tracked = map_set (store_key index proc.pid) existing w.store.tracked;
        };
        seen = add_key (store_key index proc.pid) w.seen;
        anomalies =
            if is_due existing
            then w.anomalies ++ idle_anomaly index percent proc existing ∷ []
            else w.anomalies;
      }

  unfoldable pub track_all : ℕ → V → V → List GpuProcess → Sweep V → Sweep V
  unfolding track_found
  track_all index utilization percent [] w = w
  track_all index utilization percent (proc ∷ rest) w = track_all index utilization percent rest (
      track_found index utilization percent proc
        (map_get (store_key index proc.pid) w.store.tracked) w)

  abbrev pub memory_percent_of : IdleCard V → V
  memory_percent_of gpu =
      if leb 1 gpu.memory_total_mb
      then m.percent_of gpu.memory_used_mb gpu.memory_total_mb
      else m.zero

  abbrev pub is_busy : IdleCard V → Bool
  is_busy gpu =
      m.less (memory_percent_of gpu) settings.alert_gpu_idle_memory_percent
      || m.less settings.alert_gpu_idle_utilization_percent gpu.utilization_gpu

  abbrev pub none_left : List GpuProcess → Bool
  none_left [] = true
  none_left (p ∷ ps) = false

  -- The body of the loop over the cards.
  unfoldable pub sweep_card : IdleCard V → Sweep V → Sweep V
  unfolding prune_by_prefix collect_gpu_processes track_all
  sweep_card gpu w =
      let procs = collect_gpu_processes gpu in
      if is_busy gpu || none_left procs
      then record w { store = prune_by_prefix (gpu_prefix gpu.index) w.store }
      else track_all gpu.index gpu.utilization_gpu (memory_percent_of gpu) procs w

  unfoldable pub sweep_cards : List (IdleCard V) → Sweep V → Sweep V
  unfolding sweep_card
  sweep_cards [] w = w
  sweep_cards (gpu ∷ rest) w = sweep_cards rest (sweep_card gpu w)

  abbrev pub previous_keys : IdleStore V → List String
  previous_keys store = or_value (map_get sid store.keys) []

  unfoldable pub drop_unseen :
      List String
      → List String
      → List (String × TrackedProcess V)
      → List (String × TrackedProcess V)
  drop_unseen seen [] tracked = tracked
  drop_unseen seen (old ∷ rest) tracked =
      drop_unseen seen rest (if any (λ k. k == old) seen then tracked else map_delete old tracked)

  unfoldable pub detect_gpu_idle :
      List (IdleCard V) → IdleStore V → IdleStore V × List (AlertAnomaly V (IdleDetails V))
  unfolding sweep_cards drop_unseen
  detect_gpu_idle cards store =
      let swept = sweep_cards cards (record { store = store; seen = []; anomalies = [] }) in
      (
        record {
          tracked = drop_unseen swept.seen (previous_keys swept.store) swept.store.tracked;
          keys = map_set sid swept.seen swept.store.keys;
        },
        swept.anomalies,
      )
