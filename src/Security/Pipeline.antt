-- ===== src/Security/Pipeline.antt =====
-- `processSecurityCheck`: server/core/src/security/pipeline.ts.
use pmeow.Prelude.{ℕ, String, List, [], ◌∷◌, none, some}
use pmeow.Security.Types.{
  SecurityFinding, SecurityEventRecord, SecurityDb, ProcessInfo, GpuProcesses, Platform,
}
use pmeow.Security.Analyzer.{analyze_report}
use pmeow.Security.Store.{create_security_event, find_open_security_event}

-- The loop over the findings: the table, and the new events in their order.
unfoldable pub record_findings :
    ℕ → List SecurityFinding → SecurityDb → SecurityDb × List SecurityEventRecord
unfolding create_security_event find_open_security_event
record_findings now [] db = (db, [])
record_findings now (finding ∷ rest) db =
    elim (find_open_security_event finding.server_id finding.event_type finding.fingerprint db) [
      | some existing ↦ record_findings now rest db
      | none ↦
          let created = create_security_event now finding db in
          let later = record_findings now rest created.0 in (later.0, created.1 ∷ later.1)
    ]

unfoldable pub process_security_check :
    Platform
    → ℕ
    → String
    → List String
    → List ProcessInfo
    → List GpuProcesses
    → SecurityDb
    → SecurityDb × List SecurityEventRecord
process_security_check js now sid keywords processes gpus db =
    record_findings now (analyze_report js sid keywords processes gpus) db
