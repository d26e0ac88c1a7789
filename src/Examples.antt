-- ===== src/Examples.antt =====
-- Concrete inputs, and the theorems at them.
pub mod Data
pub mod Cards
pub mod Sessions
pub mod Children
pub mod Registry
pub mod UseCases
pub mod Tasks
pub mod People
pub mod Backups
pub mod Opened
