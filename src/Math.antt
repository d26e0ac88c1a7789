-- ===== src/Math.antt =====
-- Arithmetic training (backend/internal/domain/math.go).
pub mod Settings
pub mod Work
pub mod Rounds
pub mod Session
pub mod Draws
pub mod Drawn
pub mod Choice
pub mod Opened
pub mod View
pub mod Validate
pub mod Stars
pub mod Answers
pub mod Grading
pub mod Verdict
pub mod Repeats
pub mod Replay
pub mod Kept
