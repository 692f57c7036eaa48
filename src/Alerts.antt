-- ===== src/Alerts.antt =====
-- The alert tables of server/core/src/db/alerts.ts.
pub mod Types
pub mod Store
pub mod Reconcile
pub mod Invariant
mod Resolving
pub mod Activating
pub mod Refinement
mod Audit
mod Silencing
mod History
mod Examples
