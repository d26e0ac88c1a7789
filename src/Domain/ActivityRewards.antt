-- ===== src/Domain/ActivityRewards.antt =====
-- A reward for an activity (backend/internal/domain/activity_reward.go).
use family_quest.Base.{String, ℤ}

pub record ActivityReward : Type 0 where
  pub source : String
  pub source_key : String
  pub participant_id : ℤ
  pub date : String
  pub stars : ℤ
  pub smiles : ℤ
  pub title : String
