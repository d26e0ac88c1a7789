-- ===== src/Domain.antt =====
-- Principals, roles, dates and input validation (backend/internal/domain).
pub mod Dates
pub mod Principals
pub mod Validation
pub mod Priced
pub mod Registration
pub mod ActivityRewards
pub mod Profile
pub mod Reading
pub mod Notification
