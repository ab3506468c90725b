-- ===== src/Engine.antt =====
-- core/src/config/engine: the functions that a configuration script calls, and the engine that it
-- configures.
pub mod Connect
pub mod IpList
pub mod Modules
pub mod Config
pub mod Serve
pub mod GeoIp
pub mod Resolver
pub mod Tun
mod Tests
