-- ===== src/Ingest/Running.antt =====
-- A run of the pipeline over any reports: server/core/src/ingest/pipeline.ts.
use pmeow.Prelude.{
  ℕ, String, Bool, List, [], ◌∷◌, Option, none, some, ◌==◌, string_eq, if◌then◌else◌, ◌≡◌, ◌≢◌,
  refl, ap, ◌∙◌, All, map_get, map_set, map_get-map_set,
}
use pmeow.Alerts.Invariant
use pmeow.Detectors.GpuIdle.{Measure}
use pmeow.Detectors.Broadcasts.{process_report-refines}
use pmeow.Security.Types.{Platform}
use pmeow.Security.OneOpen
use pmeow.Security.Steps.{process_security_check-IsValid}
use pmeow.Ingest.Pipeline.{
  UnifiedReport, IngestSettings, IngestPipeline, Outcome, done, thrown, take_report,
  check_and_store, go_on, process_report, get_latest_report,
}

pub record IsValid {V R G : Type 0} (s : IngestPipeline V R G) : Type 0 where
  pub alerts : Invariant.IsValid s.alerts
  pub events : OneOpen.IsValid s.security

-- A report of a server, when it comes, and the settings then.
pub record Arrival (V R G : Type 0) : Type 0 where
  pub now : ℕ
  pub server_id : String
  pub settings : IngestSettings V
  pub report : UnifiedReport V R G

-- The last report of the server, or the one before.
abbrev pub last_of :
    {V R G : Type 0}
    → String
    → List (Arrival V R G)
    → Option (UnifiedReport V R G)
    → Option (UnifiedReport V R G)
last_of sid [] o = o
last_of sid (a ∷ rest) o = last_of sid rest (if a.server_id == sid then some a.report else o)

-- What is left after a report that is handled to its end.
abbrev pub state_of : {V R G : Type 0} → Outcome V R G → Option (IngestPipeline V R G)
state_of (done s calls) = some s
state_of (thrown s calls) = none

module _ {V R G : Type 0} (js : Platform) (m : Measure V) (at_least : V → V → Bool)
    (seconds of_seconds : ℕ → V) where
  -- The reports one after the other; none where one throws.
  pub run : List (Arrival V R G) → IngestPipeline V R G → Option (IngestPipeline V R G)
  run [] s = some s
  run (a ∷ rest) s =
      elim (state_of
        (process_report js m at_least seconds of_seconds a.now a.server_id a.settings a.report s)) [
          | none ↦ none
          | some s' ↦ run rest s'
        ]

  -- One report: the state afterwards.
  Handled : Arrival V R G → IngestPipeline V R G → Type 0
  Handled a s =
      (s' : IngestPipeline V R G) × (state_of
          (process_report js m at_least seconds of_seconds a.now a.server_id a.settings a.report s)
        ≡ some s')
      × IsValid s'
      × (s'.latest_reports ≡ map_set a.server_id a.report s.latest_reports)

  process_report-done :
      (a : Arrival V R G) (s : IngestPipeline V R G) → a.server_id ≢ "" → IsValid s → Handled a s
  unfolding Handled process_report check_and_store take_report
  process_report-done a s named v =
      let taken = take_report js m at_least seconds of_seconds a.now a.server_id a.report s in
      let (r, e, valid, moves, all) =
        process_report-refines m at_least seconds of_seconds a.now a.server_id a.settings.engine
          a.report.measured taken.0.alert_store taken.0.alerts named v.alerts in
      (
        (check_and_store js m at_least seconds of_seconds a.now a.server_id a.settings a.report
            (record (taken.0) { alert_store = r.store; alerts = r.db })).0,
        ap
            (λ o. state_of (
              go_on js m at_least seconds of_seconds a.now a.server_id a.settings a.report taken o))
            e,
        record {
          alerts = valid;
          events =
              process_security_check-IsValid js a.now a.server_id
                a.settings.security_mining_keywords a.report.processes a.report.gpu_processes
                s.security v.events;
        },
        refl,
      )

  -- From valid alert tables and security events, any sequence of reports of servers with ids that
  -- are not empty, under any settings, is handled to its end without a throw; the tables stay
  -- valid, and the latest report of a server is the last of the sequence, or else the one before.
  pub run-done :
      (arrivals : List (Arrival V R G)) (s : IngestPipeline V R G)
      → All (λ a. a.server_id ≢ "") arrivals
      → IsValid s
      → (s' : IngestPipeline V R G) × (run arrivals s ≡ some s')
        × IsValid s'
        × ((sid : String)
            → get_latest_report sid s' ≡ last_of sid arrivals (get_latest_report sid s))
  unfolding run Handled get_latest_report
  run-done [] s h v = (s, refl, v, λ sid. refl)
  run-done (a ∷ rest) s (h, hs) v =
      let (next, e, valid, kept) = process_report-done a s h v in
      let (s', e', valid', latest) = run-done rest next hs valid in
      (
        s',
        rw (e, run) e',
        valid',
        λ sid.
            latest sid
            ∙ ap (last_of sid rest)
                (ap (map_get sid) kept ∙ map_get-map_set a.server_id sid a.report s.latest_reports),
      )
