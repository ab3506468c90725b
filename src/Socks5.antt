-- ===== src/Socks5.antt =====
-- The SOCKS5 protocol, without authentication: core/src/core/acceptor/socks5.rs (the server's side)
-- and core/src/core/connector/socks5.rs (the client's side).
pub mod Acceptor
pub mod Connector
pub mod Dialogue
mod Tests
