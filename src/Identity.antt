-- ===== src/Identity.antt =====
-- The identity service (backend/internal/identity).
pub mod Sessions
pub mod Revoked
pub mod Revocation
