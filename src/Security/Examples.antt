-- ===== src/Security/Examples.antt =====
-- Security checks at concrete reports, and the theorems about them.
use pmeow.Prelude.{List, [], ◌∷◌, ◌≡◌, refl, string_eq, ◌==◌, map}
use pmeow.Security.Types.{SecurityDb, Platform, ProcessInfo, GpuProcesses, event_name}
use pmeow.Security.Analyzer.{
  analyze_report, process_findings, gpu_findings, unknown_findings, generate_fingerprint,
}
use pmeow.Security.Pipeline.{record_findings, process_security_check}
use pmeow.Security.Store.{create_security_event, find_open_security_event, unresolve_security_event}
use pmeow.Security.OneOpen.{IsValid, marked}
use pmeow.Security.Steps.{checks, marks, unresolves, start, next, Reach-IsValid_events}
use pmeow.Security.Repeated.{process_security_check-again}

-- A platform for runs: a command contains a keyword where it is that keyword, and texts are their own
-- hashes.
abbrev plain : Platform
plain = record {
  to_lower_case = λ s. s;
  includes = λ s t. s == t;
  string_of = λ n. "n";
  sha256_hex = λ s. s;
}

abbrev nobody_yet : SecurityDb
nobody_yet = record { rows = []; next_id = 1 }

abbrev miners : List ProcessInfo
miners =
    record { pid = 7; user = "ann"; command = "xmrig" }
    ∷ record { pid = 8; user = "bob"; command = "vim" }
    ∷ record { pid = 9; user = "ann"; command = "xmrig" }
    ∷ []

abbrev cards : List GpuProcesses
cards =
    record {
      index = 0;
      unknown_processes =
          record { pid = 11; vram_mb = 100 } ∷ record { pid = 12; vram_mb = 101 } ∷ [];
    }
    ∷ []

abbrev checked : SecurityDb
checked = (process_security_check plain 5 "a" ("xmrig" ∷ []) miners cards nobody_yet).0

-- One event for the miner's two processes, one for the process above the limit on the card.
two_events :
    map (λ r. event_name r.event_type) checked.rows ≡ "suspicious_process" ∷ "unowned_gpu" ∷ []
unfolding process_security_check record_findings analyze_report process_findings gpu_findings
    unknown_findings generate_fingerprint create_security_event find_open_security_event
two_events = refl

process_security_check-again_example :
    process_security_check plain 6 "a" ("xmrig" ∷ []) miners cards checked ≡ (checked, [])
process_security_check-again_example =
    process_security_check-again plain 5 6 "a" ("xmrig" ∷ []) miners cards nobody_yet

abbrev reopened_later : SecurityDb
reopened_later =
    (unresolve_security_event plain 8 1 "root" "wrong" (marked 7 "root" plain 1 "known" checked)).0

Reach-IsValid_events_example : IsValid reopened_later
Reach-IsValid_events_example = Reach-IsValid_events plain reopened_later (
    next (marked 7 "root" plain 1 "known" checked) reopened_later
      (next checked (marked 7 "root" plain 1 "known" checked)
        (next nobody_yet checked start (checks 5 "a" ("xmrig" ∷ []) miners cards nobody_yet))
        (marks 7 1 "root" "known" checked))
      (unresolves 8 1 "root" "wrong" (marked 7 "root" plain 1 "known" checked)))
