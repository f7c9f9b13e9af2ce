-- ===== src/Runs.antt =====
-- Durable runs (internal/storage/runs.go) and the runtime's control of them.
pub mod Types
pub mod Store
pub mod Append
pub mod Log
pub mod Dense
pub mod Create
pub mod Created
pub mod Paging
pub mod Samples
mod Tests
