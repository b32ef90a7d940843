-- ===== src/Ws.antt =====
-- src/ws: the websocket, its handshake, its two ends and the connection over them.
pub mod Handshake
pub mod Web
pub mod Duplex
pub mod Shake
pub mod Client
pub mod Server
pub mod Conn
