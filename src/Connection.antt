-- ===== src/Connection.antt =====
-- The harness's connection to the server (internal/harness/connection.go).
pub mod Types
pub mod Transition
pub mod Backoff
pub mod Connect
pub mod Heartbeat
pub mod Keeps
pub mod Traces
pub mod Ready
pub mod Pulse
mod Tests
