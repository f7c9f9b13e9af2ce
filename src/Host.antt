-- ===== src/Host.antt =====
-- The host of the shell: server events, messages of the harness and the adapter
-- (internal/harness/connection.go, internal/harnesshost).
pub mod Messages
pub mod Bridge
pub mod Projection
pub mod Adapter
pub mod Dispatch
pub mod Counts
pub mod Conserved
pub mod Paused
pub mod Previews
pub mod Branches
mod Tests
