-- ===== src/Host.antt =====
-- bin/aria-bridge-host.js: the process that bridges and consumers connect to.
mod Tests
pub mod State
pub mod Values
pub mod Routing
pub mod Sockets
pub mod Bridges
pub mod Consumers
pub mod Http
pub mod Steps
pub mod Secrecy
pub mod Overload
pub mod Agreement
pub mod Frames
pub mod Screenshots
pub mod Sessions
pub mod Control
pub mod References
pub mod Start
