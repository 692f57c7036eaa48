-- ===== src/Security/Repeated.antt =====
-- Checking the same report again: `processSecurityCheck` of server/core/src/security/pipeline.ts.

use pmeow.Prelude.{
  ℕ, String, Bool, true, false, ◌||◌, List, [], ◌∷◌, ◌++◌, none, some, string_eq, eq_refl, ◌≡◌,
  refl, arith, subst, inl, inr, Option-cases, any, find, All,
}
use pmeow.Security.Types.{
  event_name, SecurityFinding, SecurityEventRecord, SecurityDb, Platform, ProcessInfo, GpuProcesses,
}
use pmeow.Security.Analyzer.{analyze_report}
use pmeow.Security.Pipeline.{record_findings, process_security_check}
use pmeow.Security.Store.{new_event, create_security_event, is_open, find_open_security_event}

-- The finding has an open event.
abbrev pub has_open : SecurityDb → SecurityFinding → Bool
has_open db f = any (is_open f.server_id f.event_type f.fingerprint) db.rows

find-any :
    (p : SecurityEventRecord → Bool) (xs : List SecurityEventRecord) (r : SecurityEventRecord)
    → find p xs ≡ some r
    → any p xs ≡ true
find-any p [] r h = cc
find-any p (x ∷ xs) r h = ground (arith, find-any p xs r)

find-none-any :
    (p : SecurityEventRecord → Bool) (xs : List SecurityEventRecord)
    → find p xs ≡ none
    → any p xs ≡ false
find-none-any p [] h = refl
find-none-any p (x ∷ xs) h = ground (arith, find-none-any p xs)

any-append_one :
    (p : SecurityEventRecord → Bool) (xs : List SecurityEventRecord) (x : SecurityEventRecord)
    → any p (xs ++ x ∷ []) ≡ (any p xs || p x)
any-append_one p [] x = ground arith
any-append_one p (y ∷ xs) x = ground (arith, any-append_one p xs x)

has_open-create :
    (now : ℕ) (f g : SecurityFinding) (db : SecurityDb)
    → has_open db g ≡ true
    → has_open (create_security_event now f db).0 g ≡ true
unfolding create_security_event
has_open-create now f g db h = ground (
  arith,
  any-append_one (is_open g.server_id g.event_type g.fingerprint) db.rows
      (new_event db.next_id now f),
)

has_open-created :
    (now : ℕ) (f : SecurityFinding) (db : SecurityDb)
    → has_open (create_security_event now f db).0 f ≡ true
unfolding create_security_event
has_open-created now f db = ground (
  arith,
  any-append_one (is_open f.server_id f.event_type f.fingerprint) db.rows
      (new_event db.next_id now f),
  eq_refl f.server_id,
  eq_refl (event_name f.event_type),
  eq_refl f.fingerprint,
)

has_open-record :
    (now : ℕ) (g : SecurityFinding) (fs : List SecurityFinding) (db : SecurityDb)
    → has_open db g ≡ true
    → has_open (record_findings now fs db).0 g ≡ true
unfolding record_findings
has_open-record now g [] db h = h
has_open-record now g (f ∷ fs) db h =
    elim (Option-cases (find_open_security_event f.server_id f.event_type f.fingerprint db)) [
      | inl e ↦ rw (e, record_findings) (has_open-record now g fs _ (has_open-create now f g db h))
      | inr (r, e) ↦ rw (e, record_findings) (has_open-record now g fs db h)
    ]

module _ (now : ℕ) (f : SecurityFinding) (fs : List SecurityFinding) (db : SecurityDb) where
  recorded_new :
      find_open_security_event f.server_id f.event_type f.fingerprint db ≡ none
      → (record_findings now fs (create_security_event now f db).0).0
        ≡ (record_findings now (f ∷ fs) db).0
  unfolding record_findings
  recorded_new e = rw (e, record_findings) refl

  recorded_old :
      (r : SecurityEventRecord)
      → find_open_security_event f.server_id f.event_type f.fingerprint db ≡ some r
      → (record_findings now fs db).0 ≡ (record_findings now (f ∷ fs) db).0
  unfolding record_findings
  recorded_old r e = rw (e, record_findings) refl

all_open :
    (now : ℕ) (fs : List SecurityFinding) (db : SecurityDb)
    → All (λ f. has_open (record_findings now fs db).0 f ≡ true) fs
unfolding record_findings find_open_security_event
all_open now [] db = tt
all_open now (f ∷ fs) db =
    elim (Option-cases (find_open_security_event f.server_id f.event_type f.fingerprint db)) [
      | inl e ↦ subst (opened f fs) (recorded_new now f fs db e) (
        has_open-record now f fs _ (has_open-created now f db),
        all_open now fs (create_security_event now f db).0,
      )
      | inr (r, e) ↦
          subst (opened f fs) (recorded_old now f fs db r e)
            (has_open-record now f fs db (find-any _ db.rows r e), all_open now fs db)
    ]
  where
    opened : SecurityFinding → List SecurityFinding → SecurityDb → Type 0
    opened g gs d = All (λ x. has_open d x ≡ true) (g ∷ gs)

record_findings-quiet :
    (now : ℕ) (fs : List SecurityFinding) (db : SecurityDb)
    → All (λ f. has_open db f ≡ true) fs
    → record_findings now fs db ≡ (db, [])
unfolding record_findings find_open_security_event
record_findings-quiet now [] db h = refl
record_findings-quiet now (f ∷ fs) db (h, hs) =
    elim (Option-cases (find_open_security_event f.server_id f.event_type f.fingerprint db)) [
      | inl e ↦
          absurd (cc (h, find-none-any (is_open f.server_id f.event_type f.fingerprint) db.rows e))
      | inr (r, e) ↦ rw (e, record_findings) (record_findings-quiet now fs db hs)
    ]

-- Checking a second time with what the first check saw, at any later moment, makes no event and
-- leaves the table as the first check left it.
pub process_security_check-again :
    (js : Platform) (now later : ℕ) (sid : String) (keywords : List String)
    (processes : List ProcessInfo) (gpus : List GpuProcesses) (db : SecurityDb)
    → process_security_check js later sid keywords processes gpus
        (process_security_check js now sid keywords processes gpus db).0
      ≡ ((process_security_check js now sid keywords processes gpus db).0, [])
unfolding process_security_check
process_security_check-again js now later sid keywords processes gpus db =
    record_findings-quiet later (analyze_report js sid keywords processes gpus) _
      (all_open now (analyze_report js sid keywords processes gpus) db)
