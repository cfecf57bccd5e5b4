-- ===== src/App.antt =====
-- internal/app: the parts of the runtime that keep state of their own.
pub mod Events
pub mod Coordinator
pub mod Publication
mod Examples
