-- ===== src/Shell.antt =====
-- The conversation shell (internal/harnessshell).
pub mod Types
pub mod State
pub mod Input
pub mod Permissions
pub mod Pending
pub mod Queue
pub mod Events
pub mod Merge
pub mod Release
pub mod Enter
pub mod EnterKey
pub mod Tokens
pub mod Select
pub mod Expand
pub mod Rows
pub mod Step
pub mod Invariant
pub mod Keeps
pub mod Reach
mod Tests
mod TokenTests
