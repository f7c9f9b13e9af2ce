-- ===== src/Tools.antt =====
-- internal/harness/tools: the tool registry, the permission enforcer and the executor.
pub mod Regex
pub mod Dangerous
pub mod Json
pub mod Git
pub mod Permission
pub mod Framework
pub mod Danger
mod Policy
mod Remembers
mod Catalog
mod Listing
mod Words
mod Tests
