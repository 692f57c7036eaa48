-- ===== src/Mobile.antt =====
-- What the mobile application keeps by itself: apps/mobile/src.
pub mod Notifications
pub mod Allowed
mod Examples
