-- ===== src/Mcp/Consumer.antt =====
-- `HostConsumer`, src/mcp/consumer.ts: the connection to the host, the control requests that wait for
-- a result, and the promises that the methods return.
pub mod State
pub mod Operations
pub mod Steps
pub mod Promises
pub mod Untouched
pub mod Asked
pub mod Lost
pub mod Close
mod Tests
