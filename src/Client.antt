-- ===== src/Client.antt =====
-- src/client.ts: what `startBridge` sets up in an application.
pub mod Throttle
pub mod Options
pub mod Events
pub mod Navigation
pub mod Network
pub mod Serialize
pub mod Discovery
mod Tests
