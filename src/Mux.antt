-- ===== src/Mux.antt =====
-- internal/mux: streams over one connection.
pub mod Stream
pub mod Flow
pub mod Session
pub mod Handshake
