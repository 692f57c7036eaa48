-- ===== src/Detectors/Examples.antt =====
-- The detectors and the alert engine at concrete reports, and the theorems about them.

use pmeow.Prelude.{
  ℕ, ◌*◌, ◌/◌, String, Bool, true, false, List, [], ◌∷◌, map, none, some, ◌≡◌, ◌≢◌, refl, arith,
  eq_iff, string_eq, nat_eq, ◌==◌, if◌then◌else◌, leb, ltb,
}
use pmeow.Alerts.Types.{AlertType, cpu, active, resolved, detection, type_eq}
use pmeow.Alerts.Store.{AlertRecord, AlertDb, transition, get_alert_by_key}
use pmeow.Alerts.Invariant.{IsValid}
use pmeow.Alerts.Activating.{status_of}
use pmeow.Alerts.Refinement.{next_status, raised}
use pmeow.Nodes.{AgentSessionRegistry, get_last_report_at}
use pmeow.Detectors.Thresholds.{ThresholdAlertState, next_state, next_cpu_state}
use pmeow.Detectors.Breaching.{Reading, IsDated, follow, next_cpu_state-next_state, follow-lasted}
use pmeow.Detectors.GpuIdle.{Measure, IdleCard, IdleSettings, detect_gpu_idle}
use pmeow.Detectors.Idleness.{Visit, idle_after, detect_gpu_idle-young}
use pmeow.Detectors.Offline.{detect_offline, offline_among}
use pmeow.Detectors.Engine.{
  AlertDetails, AlertStateStore, EngineSettings, EngineResult, Snapshot, detected, process_report,
  sweep_offline,
}
use pmeow.Detectors.Broadcasts.{process_report-refines, sweep_offline-resolves}

abbrev warm : ThresholdAlertState ℕ
warm = record { is_active = true; last_value = 95; first_breached_at = some 10 }

next_cpu_state-next_state_example :
    (next_cpu_state 5000 30 true 92 warm ≡ next_state 5000 30 true 92 warm)
    × IsDated (next_state 5000 30 true 92 warm)
next_cpu_state-next_state_example = next_cpu_state-next_state 5000 30 true 92 warm (λ k. refl)

abbrev reading : ℕ → Bool → Reading ℕ
reading at breaching = record { at = at; breaching = breaching; value = 91 }

-- A pause below the threshold starts the time again: 6000 is only 2000 after 4000.
abbrev readings : List (Reading ℕ)
readings =
    reading 1000 true
    ∷ reading 3000 false
    ∷ reading 4000 true
    ∷ reading 6000 true
    ∷ reading 9000 true
    ∷ []

follow-lasted_example :
    (follow 5000 readings
      (record { is_active = false; last_value = 0; first_breached_at = none })).is_active
    ≡ true
follow-lasted_example = follow-lasted 5000 readings 0

-- Whole percentages.
abbrev whole : Measure ℕ
whole = record {
  less = ltb;
  zero = 0;
  percent_of = λ used total. (used * 100) / total;
  round_tenth = λ v. v;
  string_of = λ n. if n == 0 then "0" else "n";
}

abbrev idle_settings : IdleSettings ℕ
idle_settings = record {
  alert_gpu_idle_memory_percent = 70;
  alert_gpu_idle_utilization_percent = 5;
  alert_gpu_idle_duration_seconds = 600;
}

abbrev idle_card : IdleCard ℕ
idle_card = record {
  index = 0;
  memory_total_mb = 100;
  memory_used_mb = 90;
  utilization_gpu = 0;
  task_allocations = [];
  user_processes = record { pid = 7; user = "ann"; vram_mb = 90 } ∷ [];
}

abbrev idle_at : ℕ → Visit ℕ
idle_at now = record {
  server_id = "s";
  settings = idle_settings;
  now = now;
  cards = idle_card ∷ [];
}

-- The process is seen at 1000, and is not yet reported at 600999.
detect_gpu_idle-young_example :
    (detect_gpu_idle whole "s" idle_settings 600999 (idle_card ∷ []) (
      idle_after whole (idle_at 1000 ∷ idle_at 300000 ∷ []) (record { tracked = []; keys = [] }))).1
    ≡ []
detect_gpu_idle-young_example =
    detect_gpu_idle-young whole 1000 (idle_at 1000 ∷ idle_at 300000 ∷ []) [] (idle_at 600999)
      (refl, (refl, tt)) refl refl

-- It is reported a millisecond later.
reported_at_601000 :
    map
      (λ a. a.fingerprint)
      (detect_gpu_idle whole "s" idle_settings 601000 (idle_card ∷ []) (
        idle_after whole
          (idle_at 1000 ∷ idle_at 300000 ∷ [])
          (record { tracked = []; keys = [] }))).1
    ≡ "gpu0:pidn" ∷ []
unfolding idle_after
reported_at_601000 = refl

abbrev hot : AlertRecord ℕ (AlertDetails ℕ)
hot = record {
  id = 1;
  server_id = "s";
  alert_type = cpu;
  value = 95;
  threshold = 90;
  fingerprint = "";
  details = none;
  status = active;
  created_at = 5;
  updated_at = 5;
}

abbrev one_hot : AlertDb ℕ (AlertDetails ℕ)
one_hot = record {
  alerts = hot ∷ [];
  next_id = 2;
  transitions = transition 1 resolved active detection 5 ∷ [];
}

one_hot-IsValid : IsValid one_hot
one_hot-IsValid = record {
  fresh = omega arith;
  ids = (tt, tt);
  keys = (tt, tt);
  logged = (refl, tt);
  unused = λ id h. ground arith;
}

named : (a b : String) → (a == b) ≡ false → a ≢ b
named a b h e = ground (arith, eq_iff {A = String} a b)

abbrev settings : EngineSettings ℕ
settings = record {
  threshold_settings = record {
    alert_cpu_threshold = 90;
    alert_memory_threshold = 90;
    alert_disk_threshold = 90;
    alert_gpu_temp_threshold = 90;
    alert_threshold_duration_seconds = 0;
    alert_disk_mount_points = "/" ∷ [];
  };
  idle_settings = idle_settings;
  alert_offline_seconds = 30;
}

abbrev calm : Snapshot ℕ
calm = record {
  readings = record { cpu_usage = 10; memory_usage = 20; disks = []; gpu_cards = [] };
  cards = idle_card ∷ [];
}

abbrev nothing_stored : AlertStateStore ℕ
nothing_stored = record { thresholds = []; idle = record { tracked = []; keys = [] } }

process_report-refines_example :
    (r : EngineResult ℕ) × (process_report whole
        (λ a b. leb b a)
        (λ n. n)
        (λ n. n)
        50
        "s"
        settings
        calm
        nothing_stored
        one_hot
      ≡ some r)
    × IsValid r.db
    × ((sid' : String) (t : AlertType) (fp : String)
        → status_of r.db sid' t fp ≡ (
            if "s" == sid'
            then next_status
                (raised
                  (detected whole
                    (λ a b. leb b a)
                    (λ n. n)
                    (λ n. n)
                    50
                    "s"
                    settings
                    calm
                    nothing_stored).1
                  t
                  fp)
                (status_of one_hot sid' t fp)
            else status_of one_hot sid' t fp))
    × (r.broadcastable ≡ r.all_changes)
process_report-refines_example =
    process_report-refines whole (λ a b. leb b a) (λ n. n) (λ n. n) 50 "s" settings calm
      nothing_stored one_hot (named "s" "" refl) one_hot-IsValid

abbrev silent_agent : AgentSessionRegistry
silent_agent = record {
  sessions = ("agent", record { agent_id = "agent"; server_id = "s" }) ∷ [];
  last_report_at = ("agent", 1000) ∷ [];
}

sweep_offline-resolves_example :
    (w : _) × (sweep_offline whole
        (λ a b. leb b a)
        (λ n. n)
        (λ n. n)
        90000
        settings
        silent_agent
        one_hot
      ≡ some w)
    × (status_of w.db "s" cpu "" ≡ some resolved)
unfolding detect_offline offline_among get_last_report_at get_alert_by_key
sweep_offline-resolves_example =
    sweep_offline-resolves whole (λ a b. leb b a) (λ n. n) (λ n. n) 90000 89000 "s" settings
      silent_agent one_hot cpu "" (named "s" "" refl) one_hot-IsValid refl refl refl
