-- ===== src/Tasks.antt =====
-- Tasks, and the queue of notifications about them (backend/internal/store).
pub mod Tables
pub mod Lifecycle
pub mod Recipients
pub mod Outbox
pub mod Steps
pub mod Queue
pub mod Calls
pub mod Events
pub mod Claims
pub mod Due
pub mod Muted
pub mod Silence
pub mod Completion
pub mod Once
