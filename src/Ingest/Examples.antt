-- ===== src/Ingest/Examples.antt =====
-- Two reports of one server, from empty tables.
use pmeow.Prelude.{
  ℕ, String, List, [], ◌∷◌, some, ◌≡◌, ◌≢◌, refl, string_eq, eq_iff, ltb, leb, ◌*◌, ◌/◌, false,
}
use pmeow.Alerts.Invariant
use pmeow.Detectors.GpuIdle.{Measure}
use pmeow.Security.Types.{Platform}
use pmeow.Ingest.Pipeline.{UnifiedReport, IngestSettings, IngestPipeline, get_latest_report}
use pmeow.Ingest.Running.{IsValid, Arrival, last_of, run, run-done}

abbrev plain : Platform
plain = record {
  to_lower_case = λ s. s;
  includes = λ s t. false;
  string_of = λ n. "n";
  sha256_hex = λ s. s;
}

abbrev whole : Measure ℕ
whole = record {
  less = ltb;
  zero = 0;
  percent_of = λ used total. (used * 100) / total;
  round_tenth = λ v. v;
  string_of = λ n. "n";
}

abbrev settings : IngestSettings ℕ
settings = record {
  engine = record {
    threshold_settings = record {
      alert_cpu_threshold = 90;
      alert_memory_threshold = 90;
      alert_disk_threshold = 90;
      alert_gpu_temp_threshold = 90;
      alert_threshold_duration_seconds = 0;
      alert_disk_mount_points = "/" ∷ [];
    };
    idle_settings = record {
      alert_gpu_idle_memory_percent = 70;
      alert_gpu_idle_utilization_percent = 5;
      alert_gpu_idle_duration_seconds = 600;
    };
    alert_offline_seconds = 30;
  };
  security_mining_keywords = "xmrig" ∷ [];
  snapshots = record {
    snapshot_recent_interval_seconds = 60;
    snapshot_archive_interval_seconds = 1800;
    snapshot_recent_keep_count = 120;
  };
}

abbrev pub report : ℕ → UnifiedReport ℕ ℕ ℕ
report seq = record {
  timestamp = 10;
  task_queue = record { queued = []; running = []; recently_ended = [] };
  measured = record {
    readings = record { cpu_usage = 95; memory_usage = 20; disks = []; gpu_cards = [] };
    cards = [];
  };
  processes = [];
  gpu_processes = [];
  stored = record { timestamp = 10; seq = seq; resources = 0; cards = [] };
}

abbrev pub empty : IngestPipeline ℕ ℕ ℕ
empty = record {
  latest_reports = [];
  scheduler = record { last_recent_at = []; last_archive_at = [] };
  alert_store = record { thresholds = []; idle = record { tracked = []; keys = [] } };
  tasks = record { tasks = []; schedule = [] };
  alerts = record { alerts = []; next_id = 1; transitions = [] };
  security = record { rows = []; next_id = 1 };
  snapshots = record { snapshots = []; next_id = 1; gpu_snapshots = []; next_gpu_id = 1 };
}

no_alerts-IsValid : Invariant.IsValid empty.alerts
no_alerts-IsValid = record { fresh = tt; ids = tt; keys = tt; logged = tt; unused = λ id h. refl }

empty-IsValid : IsValid empty
empty-IsValid = record {
  alerts = no_alerts-IsValid;
  events = record { below = tt; distinct = tt; one_open = tt };
}

abbrev arrivals : List (Arrival ℕ ℕ ℕ)
arrivals =
    record { now = 10000; server_id = "s"; settings = settings; report = report 1 }
    ∷ record { now = 15000; server_id = "s"; settings = settings; report = report 2 }
    ∷ []

s_not_empty : ◌≢◌ {A = String} "s" ""
s_not_empty e = cc ((eq_iff {A = String} "s" "").1 e)

run-done_example :
    (s' : IngestPipeline ℕ ℕ ℕ) × (run plain whole (λ a b. leb b a) (λ n. n) (λ n. n) arrivals empty
      ≡ some s')
    × IsValid s'
    × ((sid : String)
        → get_latest_report sid s' ≡ last_of sid arrivals (get_latest_report sid empty))
run-done_example =
    run-done plain whole (λ a b. leb b a) (λ n. n) (λ n. n) arrivals empty
      (s_not_empty, (s_not_empty, tt)) empty-IsValid
