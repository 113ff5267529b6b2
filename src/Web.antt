-- ===== src/Web.antt =====
-- src/web: the WebSocket channel.
pub mod Base64
pub mod Channel
pub mod Handshake
pub mod Sha1
pub mod Worker
