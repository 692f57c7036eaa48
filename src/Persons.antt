-- ===== src/Persons.antt =====
-- Persons, their tokens and their accounts on servers: server/core/src/person and the person tables
-- of server/core/src/db.
pub mod Records
pub mod Tokens
pub mod Rotation
pub mod Bindings
pub mod Throwing
pub mod Scope
pub mod Resolve
pub mod Wizard
pub mod Conflicts
pub mod AutoAdd
pub mod AutoAdded
pub mod Directory
pub mod Timeline
mod WizardExamples
mod Examples
