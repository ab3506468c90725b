-- ===== src/Simplex.antt =====
-- core/src/core/simplex: connections that travel in the messages of a websocket.
pub mod Stream
pub mod Server
pub mod Client
pub mod Tunnel
