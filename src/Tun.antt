-- ===== src/Tun.antt =====
-- core/src/core/tun: the fake DNS of the TUN mode.
pub mod Lru
pub mod Pool
pub mod Resolver
mod Tests
