-- ===== src/Realtime.antt =====
-- The sockets of agents and of users: server/runtime/src/realtime.ts.
pub mod Agents
pub mod Sessions
pub mod Dropped
pub mod Routing
pub mod Broadcast
mod Examples
