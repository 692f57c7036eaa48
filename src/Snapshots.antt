-- ===== src/Snapshots.antt =====
-- Stored snapshots: server/core/src/db/snapshots.ts and server/core/src/ingest/snapshot-scheduler.ts.
pub mod Store
pub mod Retention
pub mod Scheduler
mod Examples
