-- ===== src/Compaction.antt =====
-- internal/runtime/compact.go: what a compaction would free, and what it does to the turns.
pub mod Plan
pub mod Apply
pub mod Tokens
pub mod Distinct
pub mod Keeps
mod Tests
