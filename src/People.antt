-- ===== src/People.antt =====
-- Participants, their PINs and their trusted devices (backend/internal/store).
pub mod Tables
pub mod Members
pub mod Devices
pub mod Parents
pub mod Changes
pub mod Closed
pub mod Rows
pub mod Trust
pub mod PinChange
pub mod Grants
