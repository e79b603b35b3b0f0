-- ===== src/Operator.antt =====
-- internal/operator: an operator's sessions, grants and forwards.
pub mod Sessions
pub mod Grants
pub mod Forwarding
