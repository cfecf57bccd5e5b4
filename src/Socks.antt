-- ===== src/Socks.antt =====
-- internal/socks: the server's wire protocol.
pub mod Protocol
mod Examples
