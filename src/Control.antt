-- ===== src/Control.antt =====
-- internal/runtime: the run controls (run_controls.go, run_runtime.go) and the registry of active runs.
pub mod Types
pub mod Registry
pub mod Active
pub mod Linked
pub mod Answers
pub mod Handlers
pub mod Changes
pub mod Ended
pub mod Replay
pub mod Cancel
mod Tests
