-- ===== src/Kuaifan.antt =====
-- internal/kuaifan: the control plane: its message codec and the refresher.
pub mod Codec
pub mod Refresh
mod Examples
