-- ===== src/Models.antt =====
-- internal/runtime/registry.go and routing.go: the models that are known, and the choice of one.
pub mod Types
pub mod Registry
pub mod Routing
pub mod Precedence
pub mod Switch
mod Tests
