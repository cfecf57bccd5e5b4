-- ===== src/State.antt =====
-- internal/state: the durable state, the immutable runtime view and the manager that serialises both.
pub mod Types
pub mod Sessions
pub mod Snapshot
pub mod Binding
pub mod Manager
pub mod Persistent
pub mod Samples
mod Examples
