-- ===== src/Application.antt =====
-- The use cases (backend/internal/application).
pub mod Access
pub mod Cards
pub mod Lessons
pub mod Earned
pub mod Tasks
pub mod Notifications
pub mod FourEyes
pub mod Sessions
pub mod SignIn
pub mod SignedOut
pub mod Members
pub mod Devices
pub mod Confirmed
pub mod Backup
pub mod BackupLessons
pub mod BackupBudget
