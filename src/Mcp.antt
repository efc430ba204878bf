-- ===== src/Mcp.antt =====
-- src/mcp: the server that offers what the host sees as resources and tools.
pub mod EventBuffer
pub mod Validation
pub mod Config
pub mod Consumer
pub mod Cli
pub mod Server
