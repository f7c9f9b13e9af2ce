-- ===== src/Sessions.antt =====
-- internal/storage/sessions.go: the table sessions and the locks on its rows, and
-- internal/runtime/session.go: the requests on sessions.
pub mod Instants
pub mod Table
pub mod Locks
pub mod Exclusion
mod Tests
mod HandlerTests
pub mod Active
pub mod Handlers
pub mod Copy
pub mod Denied
pub mod Fork
pub mod Resume
