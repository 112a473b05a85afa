-- ===== src/Control.antt =====
-- internal/control: the TCP control channel between client and server.
pub mod Messages
pub mod Framing
pub mod Codec
pub mod Server
