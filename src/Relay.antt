-- ===== src/Relay.antt =====
-- The relay's registers (internal/relay).
pub mod Live
pub mod Registry
pub mod Joining
pub mod Serving
