-- ===== src/Ingest.antt =====
-- The way of a report through the server: server/core/src/ingest/pipeline.ts.
pub mod Pipeline
pub mod Running
pub mod Examples
