-- ===== src/Auth.antt =====
-- Who may log in and what their requests may do: server/runtime/src/auth.ts.
pub mod Login
pub mod Middleware
mod Verified
pub mod Accepted
pub mod Archived
pub mod Setup
mod Examples
