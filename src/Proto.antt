-- ===== src/Proto.antt =====
-- internal/proto: the wire format.
pub mod Reason
pub mod Frame
pub mod Codec
pub mod Handshake
pub mod Grant
