-- ===== src/Web.antt =====
-- internal/web: the throttle of access attempts, the store of browser sessions and the redaction of
-- diagnostics.
mod Examples
pub mod Access
pub mod Sessions
pub mod Diagnostics
