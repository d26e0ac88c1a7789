-- ===== src/Auth.antt =====
-- Signed tokens of sessions (backend/internal/auth).
pub mod Token
pub mod Split
pub mod RoundTrip
