-- ===== src/Truncation.antt =====
-- internal/provider: fitting a conversation into a model's window (truncate.go, message.go).
pub mod Types
pub mod Truncate
pub mod Pairs
pub mod Window
mod Tests
