-- ===== src/Routes.antt =====
-- The HTTP routes that no component has beside it: server/runtime/src/routes.
pub mod Answers
pub mod People
pub mod Requests
pub mod Kept
pub mod Protected
pub mod Machines
pub mod Visible
mod Examples
pub mod Admin
pub mod Lists
pub mod AlertList
