-- ===== src/Detectors/Thresholds.antt =====
-- The threshold detectors of server/core/src/alert/detectors.ts, over a map for their part of the
-- `AlertStateStore` (server/core/src/alert/state-store.ts). The measured numbers are any type with the
-- comparison that the code makes; times and durations are milliseconds.
use pmeow.Prelude.{
  ℕ, ◌+◌, ◌*◌, String, Bool, true, false, ◌||◌, List, [], ◌∷◌, ◌++◌, Option, none, some, ◌==◌,
  nat_eq, string_eq, if◌then◌else◌, leb, any, map_get, map_set,
}
use Prim.Native.String
use pmeow.Alerts.Types.{AlertType, cpu, memory, disk, gpu_temp, type_name}
use pmeow.Alerts.Store.{AlertAnomaly}

pub record ThresholdAlertState (V : Type 0) : Type 0 where
  pub is_active : Bool
  pub last_value : V
  pub first_breached_at : Option ℕ

abbrev pub Store : Type 0 → Type 0
Store V = List (String × ThresholdAlertState V)

-- `alertThresholdDurationSeconds` is at least 0 here, so the maximum with 0 is left out.
pub record ThresholdSettings (V : Type 0) : Type 0 where
  pub alert_cpu_threshold : V
  pub alert_memory_threshold : V
  pub alert_disk_threshold : V
  pub alert_gpu_temp_threshold : V
  pub alert_threshold_duration_seconds : ℕ
  pub alert_disk_mount_points : List String

pub record DiskInfo (V : Type 0) : Type 0 where
  pub filesystem : String
  pub mount_point : String
  pub usage_percent : V

pub record GpuCard (V : Type 0) : Type 0 where
  pub index : ℕ
  pub name : String
  pub temperature : V

pub record Readings (V : Type 0) : Type 0 where
  pub cpu_usage : V
  pub memory_usage : V
  pub disks : List (DiskInfo V)
  pub gpu_cards : List (GpuCard V)

-- The details that the detectors attach.
pub data Details : Type 0 where
  disk_details : String → String → Details
  gpu_details : ℕ → String → Details

abbrev pub or_now : Option ℕ → ℕ → ℕ
or_now none now = now
or_now (some t) now = t

abbrev pub state_or : {V : Type 0} → V → Option (ThresholdAlertState V) → ThresholdAlertState V
state_or value none = record { is_active = false; last_value = value; first_breached_at = none }
state_or value (some s) = s

-- What `updateThresholdState` makes of the stored state.
unfoldable pub next_state :
    {V : Type 0} → ℕ → ℕ → Bool → V → ThresholdAlertState V → ThresholdAlertState V
next_state duration_ms now is_breaching value s =
    if is_breaching
    then record {
      is_active =
          if duration_ms == 0 || leb (or_now s.first_breached_at now + duration_ms) now
          then true
          else s.is_active;
      last_value = value;
      first_breached_at = some (or_now s.first_breached_at now);
    }
    else record { is_active = false; last_value = value; first_breached_at = none }

-- What `detectCpuThreshold` makes of it.
unfoldable pub next_cpu_state :
    {V : Type 0} → ℕ → ℕ → Bool → V → ThresholdAlertState V → ThresholdAlertState V
next_cpu_state duration_ms now is_breaching value s =
    if s.is_active
    then record {
      is_active = is_breaching;
      last_value = value;
      first_breached_at = if is_breaching then s.first_breached_at else none;
    }
    else if is_breaching
    then record {
      is_active = duration_ms == 0 || leb (or_now s.first_breached_at now + duration_ms) now;
      last_value = value;
      first_breached_at = some (or_now s.first_breached_at now);
    }
    else record { is_active = false; last_value = value; first_breached_at = none }

abbrev pub cpu_alert_state_key : String → String
cpu_alert_state_key sid = String.◌++◌ "threshold:cpu:" sid

abbrev pub threshold_alert_state_key : String → AlertType → String → String
threshold_alert_state_key sid t fp =
    String.◌++◌ "threshold:"
      (String.◌++◌ (type_name t) (String.◌++◌ ":" (String.◌++◌ sid (String.◌++◌ ":" fp))))

module _ {V : Type 0} (at_least : V → V → Bool) (string_of : ℕ → String) where
  module _ (sid : String) (settings : ThresholdSettings V) (now : ℕ) where
    abbrev pub duration_ms : ℕ
    duration_ms = settings.alert_threshold_duration_seconds * 1000

    unfoldable pub update_threshold_state : String → V → Bool → Store V → Store V × Bool
    unfolding next_state
    update_threshold_state key value is_breaching store =
        let state =
          next_state duration_ms now is_breaching value (state_or value (map_get key store)) in
        (map_set key state store, state.is_active)

    -- One threshold test: the anomaly is raised where the state is active.
    unfoldable pub detect_one :
        AlertType
        → V
        → V
        → String
        → Option Details
        → Store V
        → Store V × List (AlertAnomaly V Details)
    unfolding update_threshold_state
    detect_one t value threshold fp details store =
        let updated =
          update_threshold_state (threshold_alert_state_key sid t fp) value
            (at_least value threshold) store in
        (
          updated.0,
          if updated.1
              then record {
                alert_type = t;
                value = value;
                threshold = threshold;
                fingerprint = fp;
                details = details;
              }
                ∷ []
              else [],
        )

    unfoldable pub detect_cpu_threshold : V → Store V → Store V × List (AlertAnomaly V Details)
    unfolding next_cpu_state
    detect_cpu_threshold usage store =
        let key = cpu_alert_state_key sid in
        let state =
          next_cpu_state duration_ms now (at_least usage settings.alert_cpu_threshold) usage
            (state_or usage (map_get key store)) in
        (
          map_set key state store,
          if state.is_active
              then record {
                alert_type = cpu;
                value = usage;
                threshold = settings.alert_cpu_threshold;
                fingerprint = "";
                details = none;
              }
                ∷ []
              else [],
        )

    unfoldable pub detect_disks :
        List (DiskInfo V) → Store V → Store V × List (AlertAnomaly V Details)
    unfolding detect_one
    detect_disks [] store = (store, [])
    detect_disks (d ∷ rest) store =
        let tested =
          detect_one disk d.usage_percent settings.alert_disk_threshold d.mount_point
            (some (disk_details d.mount_point d.filesystem)) store in
        let here =
          if any (λ m. m == d.mount_point) settings.alert_disk_mount_points
          then tested
          else (store, []) in
        let later = detect_disks rest here.0 in (later.0, here.1 ++ later.1)

    unfoldable pub detect_gpu_temps :
        List (GpuCard V) → Store V → Store V × List (AlertAnomaly V Details)
    unfolding detect_one
    detect_gpu_temps [] store = (store, [])
    detect_gpu_temps (g ∷ rest) store =
        let here =
          detect_one gpu_temp g.temperature settings.alert_gpu_temp_threshold
            (String.◌++◌ "gpu" (string_of g.index)) (some (gpu_details g.index g.name)) store in
        let later = detect_gpu_temps rest here.0 in (later.0, here.1 ++ later.1)

    unfoldable pub detect_thresholds :
        Readings V → Store V → Store V × List (AlertAnomaly V Details)
    unfolding detect_cpu_threshold detect_one detect_disks detect_gpu_temps
    detect_thresholds readings store =
        let by_cpu = detect_cpu_threshold readings.cpu_usage store in
        let by_memory =
          detect_one memory readings.memory_usage settings.alert_memory_threshold "" none
            by_cpu.0 in
        let by_disk = detect_disks readings.disks by_memory.0 in
        let by_gpu = detect_gpu_temps readings.gpu_cards by_disk.0 in
        (by_gpu.0, by_cpu.1 ++ (by_memory.1 ++ (by_disk.1 ++ by_gpu.1)))
