-- ===== src/Security/Steps.antt =====
-- The table of security events over any run of the program: server/core/src/security/pipeline.ts and
-- server/core/src/db/security-events.ts.
use pmeow.Prelude.{ℕ, String, List, [], ◌∷◌, inl, inr, Option-cases}
use pmeow.Security.Types.{SecurityFinding, SecurityDb, Platform, ProcessInfo, GpuProcesses}
use pmeow.Security.Analyzer.{analyze_report}
use pmeow.Security.Pipeline.{record_findings, process_security_check}
use pmeow.Security.Store.{find_open_security_event, unresolve_security_event}
use pmeow.Security.OneOpen.{
  IsValid, marked, create_security_event-IsValid, marked-IsValid, unresolve-IsValid,
}

record_findings-IsValid :
    (now : ℕ) (findings : List SecurityFinding) (db : SecurityDb)
    → IsValid db
    → IsValid (record_findings now findings db).0
unfolding record_findings
record_findings-IsValid now [] db v = v
record_findings-IsValid now (f ∷ fs) db v =
    elim (Option-cases (find_open_security_event f.server_id f.event_type f.fingerprint db)) [
      | inl e ↦
          rw (e, record_findings)
            (record_findings-IsValid now fs _ (create_security_event-IsValid now f db v e))
      | inr (r, e) ↦ rw (e, record_findings) (record_findings-IsValid now fs db v)
    ]

pub process_security_check-IsValid :
    (js : Platform) (now : ℕ) (sid : String) (keywords : List String) (processes : List ProcessInfo)
    (gpus : List GpuProcesses) (db : SecurityDb)
    → IsValid db
    → IsValid (process_security_check js now sid keywords processes gpus db).0
unfolding process_security_check
process_security_check-IsValid js now sid keywords processes gpus db v =
    record_findings-IsValid now (analyze_report js sid keywords processes gpus) db v

-- What a caller can do to the table of security events.
pub data Step (js : Platform) : SecurityDb → SecurityDb → Type 0 where
  checks :
      (now : ℕ) (sid : String) (keywords : List String) (processes : List ProcessInfo)
      (gpus : List GpuProcesses) (db : SecurityDb)
      → Step js db (process_security_check js now sid keywords processes gpus db).0
  marks :
      (now id : ℕ) (by reason : String) (db : SecurityDb)
      → Step js db (marked now by js id reason db)
  unresolves :
      (now id : ℕ) (actor reason : String) (db : SecurityDb)
      → Step js db (unresolve_security_event js now id actor reason db).0

pub data Reach (js : Platform) : SecurityDb → Type 0 where
  start : Reach js (record { rows = []; next_id = 1 })
  next : (before after : SecurityDb) → Reach js before → Step js before after → Reach js after

Step-IsValid :
    (js : Platform) (before after : SecurityDb)
    → Step js before after
    → IsValid before
    → IsValid after
unfolding process_security_check
Step-IsValid js _ _ (checks now sid keywords processes gpus db) v =
    process_security_check-IsValid js now sid keywords processes gpus db v
Step-IsValid js _ _ (marks now id by reason db) v = marked-IsValid now by js id reason db v
Step-IsValid js _ _ (unresolves now id actor reason db) v =
    unresolve-IsValid now actor js id reason db v

-- However reports, marking as safe and reopening follow each other from an empty table, no two open
-- events ever have the same server, kind and fingerprint, and the ids are distinct and below the
-- counter.
pub Reach-IsValid_events : (js : Platform) (db : SecurityDb) → Reach js db → IsValid db
Reach-IsValid_events js _ start = record { below = tt; distinct = tt; one_open = tt }
Reach-IsValid_events js _ (next before after r s) =
    Step-IsValid js before after s (Reach-IsValid_events js before r)
