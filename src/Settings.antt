-- ===== src/Settings.antt =====
-- The settings: server/core/src/db/settings.ts and server/runtime/src/routes/settings-routes.ts.
pub mod Store
pub mod Reading
pub mod Routes
pub mod Password
mod Examples
