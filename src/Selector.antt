-- ===== src/Selector.antt =====
-- internal/selector: the SOCKS credentials of the nodes.
pub mod Identity
pub mod Registry
pub mod Build
mod Examples
