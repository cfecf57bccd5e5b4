-- ===== src/Wifiin.antt =====
-- internal/kuaifan/wifiin: the WIFIIN tunnel protocol.
pub mod Uot
pub mod Provider
pub mod Header
pub mod Handshake
mod Examples
