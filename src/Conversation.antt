-- ===== src/Conversation.antt =====
-- internal/runtime/conversation.go and the table turns: the conversation of a session.
pub mod Types
pub mod State
pub mod Table
pub mod Order
pub mod Live
pub mod Records
pub mod InStep
pub mod Steps
pub mod Restore
pub mod Pending
pub mod Lost
pub mod Samples
mod Tests
