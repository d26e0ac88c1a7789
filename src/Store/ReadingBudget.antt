-- ===== src/Store/ReadingBudget.antt =====
-- The daily budget of reading stars (`CompleteReading`, backend/internal/store/reading.go).
use family_quest.Base.{
  inl, inr, not, ◌&&◌, ℤ, pos, ◌≤ℤ◌, ◌+ℤ◌, lt_ℤ, any, Result, ok, err, Option, none, some, arith,
  Bool-cases,
}
use family_quest.Domain.Dates.{Time, family_date}
use family_quest.Domain.ActivityRewards.{ActivityReward}
use family_quest.Domain.Reading.{
  ReadingCompletion, reading_award, reading_reward, reading_award_bounds, validate_completion,
}
use family_quest.Store.Db.{Db, ParticipantRow, active_child, earned_stars}
use family_quest.Store.Ledger.{IsBudgeted, earned_stars_nonneg, insert-IsBudgeted}
use family_quest.Store.Reading.{
  is_start_at, award_reading, complete_saved, complete_for, complete_valid, complete_reading,
  saved_reading,
}

small : (x : ℤ) → x ≤ℤ pos 30 → x ≤ℤ pos 9_000_000_000_000_000_000
small x h = ground arith

module _ (db : Db) (owner : ℤ) (c : ReadingCompletion) (now : Time)
    (b : IsBudgeted "reading" 30 db.activity_rewards) where
  abbrev earned : ℤ
  earned = earned_stars "reading" owner (family_date now) db.activity_rewards

  award_room : (pos 0 ≤ℤ reading_award c earned) × (earned +ℤ reading_award c earned ≤ℤ pos 30)
  award_room =
      let held : earned ≤ℤ pos 30 = b.within owner (family_date now) in
      let nonneg : pos 0 ≤ℤ earned =
        earned_stars_nonneg "reading" owner (family_date now) db.activity_rewards b.gains in
      let (lo, under, day) = reading_award_bounds c earned nonneg (small earned held) in
      (lo, ground (arith, held, day))

  award_reading-IsBudgeted :
      IsBudgeted "reading" 30 (award_reading db owner c now).0.activity_rewards
  unfolding award_reading reading_reward
  award_reading-IsBudgeted =
      elim (Bool-cases
        (lt_ℤ (pos 0) db.family_id && not (any (is_start_at c owner) db.reading_starts))) [
          | inl unstarted ↦ rw unstarted b
          | inr started ↦ rw started (
              insert-IsBudgeted "reading" 30 db.participants db.activity_rewards
                (reading_reward c owner earned now) b award_room.0 award_room.1)
        ]

  complete_saved-IsBudgeted :
      (o : Option ActivityReward)
      → IsBudgeted "reading" 30 (complete_saved db owner c now o).0.activity_rewards
  unfolding complete_saved
  complete_saved-IsBudgeted none = award_reading-IsBudgeted
  complete_saved-IsBudgeted (some saved) = b

  complete_for-IsBudgeted :
      (o : Option ParticipantRow)
      → IsBudgeted "reading" 30 (complete_for db owner c now o).0.activity_rewards
  unfolding complete_for
  complete_for-IsBudgeted none = b
  complete_for-IsBudgeted (some p) =
      complete_saved-IsBudgeted (saved_reading c.id owner db.activity_rewards)

  complete_valid-IsBudgeted :
      (r : Result (Unit {0}))
      → IsBudgeted "reading" 30 (complete_valid r db owner c now).0.activity_rewards
  unfolding complete_valid
  complete_valid-IsBudgeted (err e) = b
  complete_valid-IsBudgeted (ok u) = complete_for-IsBudgeted (active_child owner db.participants)

-- Whatever is completed, nobody has more than thirty stars for reading on a day, and no stored
-- reward takes stars away, where it was so before.
pub complete_reading-IsBudgeted :
    (db : Db) (owner : ℤ) (c : ReadingCompletion) (now : Time)
    → IsBudgeted "reading" 30 db.activity_rewards
    → IsBudgeted "reading" 30 (complete_reading db owner c now).0.activity_rewards
unfolding complete_reading
complete_reading-IsBudgeted db owner c now b =
    complete_valid-IsBudgeted db owner c now b (validate_completion c)
