-- ===== src/Detectors.antt =====
-- What turns a report into anomalies: server/core/src/alert/detectors.ts and
-- server/core/src/alert/state-store.ts, and the engine that hands them to the alerts.
pub mod Thresholds
pub mod GpuIdle
pub mod Idleness
pub mod Breaching
pub mod Offline
pub mod Engine
pub mod Broadcasts
mod Examples
