-- ===== src/Tasks.antt =====
-- Tasks: what the agents report, the table that keeps it, and the events made from it.
pub mod Types
pub mod Differ
pub mod Events
pub mod Store
pub mod Schedule
pub mod History
pub mod Engine
pub mod Statuses
pub mod Queries
pub mod Service
pub mod Stored
pub mod Pages
pub mod Commands
mod QueryExamples
mod Examples
