-- ===== src/Control.antt =====
-- internal/control: who may reach what, and the grants that say so.
pub mod Policy
pub mod Enrollment
pub mod Grants
pub mod Login
pub mod Audit
pub mod Http
