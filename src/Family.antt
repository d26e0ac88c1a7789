-- ===== src/Family.antt =====
-- Family activity cards (backend/internal/domain/family.go, sport.go and activity_reward.go).
pub mod Entry
pub mod Media
pub mod Validate
pub mod Command
pub mod Candidates
pub mod Guards
pub mod Outcomes
pub mod Valid
pub mod Retry
pub mod Stages
pub mod Awards
