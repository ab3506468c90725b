-- ===== src/Http.antt =====
-- The acceptor of HTTP proxy requests (core/src/core/acceptor/http.rs) and the connector through an
-- HTTP proxy (core/src/core/connector/http.rs).
pub mod Dialogue
pub mod Request
pub mod Handler
pub mod Handshake
pub mod Connector
mod Tests
