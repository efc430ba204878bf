-- ===== src/Socket.antt =====
-- `BridgeWebSocket`, src/websocket.ts: the connection of a bridge to its host.
pub mod Redact
pub mod State
pub mod Operations
pub mod Steps
pub mod Timers
pub mod Ownership
pub mod Outbox
pub mod Opening
pub mod Order
pub mod Waiting
pub mod Reconnect
mod Tests
