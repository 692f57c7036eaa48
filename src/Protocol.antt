-- ===== src/Protocol.antt =====
-- What an agent may send, and what the server makes of it: server/contracts/src/protocol.ts.
pub mod Json
pub mod Guards
pub mod Tasks
pub mod Parse
pub mod Typed
pub mod Samples
mod Examples
