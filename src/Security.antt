-- ===== src/Security.antt =====
-- Security events: server/core/src/security and server/core/src/db/security-events.ts.
pub mod Types
pub mod Analyzer
pub mod Store
pub mod Queries
pub mod Pipeline
pub mod OneOpen
pub mod Steps
pub mod Repeated
mod Examples
