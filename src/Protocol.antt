-- ===== src/Protocol.antt =====
-- internal/protocol: message framing, the codec, sessions and exchanges.
pub mod Message
pub mod Session
pub mod Exchange
pub mod Codec
