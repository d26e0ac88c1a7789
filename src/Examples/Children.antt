-- ===== src/Examples/Children.antt =====
-- The theorems on profiles, reading and notifications at concrete inputs (backend/internal/domain).
use family_quest.Base.{
  none, trim_space, trim_left, trim_right, is_empty, is_space, [], ◌∷◌, ◌≡◌, refl, true, pos, ◌≤ℤ◌,
  ◌+ℤ◌, ◌≤◌, ◌*◌, codes_lt, ok, arith,
}
use family_quest.Domain.Dates.{parse_date, format_date}
use family_quest.Domain.Profile.{
  validate_profile, valid_birth, policy, allows_math, allows_reading, policy_allows_easy,
}
use family_quest.Domain.Reading.{
  ReadingCompletion, reading_award, reading_stars, reading_reward, validate_completion,
  reading_award_bounds, reading_daily_star_limit, max_int,
}
use family_quest.Domain.Notification.{
  notification_retry_delay, notification_retry_delay_bounds, second, hour,
}
use family_quest.Domain.Validation.{Reward, normalize_reward, valid_reward}
use family_quest.Domain.Priced.{is_priced, normalize_reward-is_priced}
use family_quest.Store.Db.{Db, earned_stars, active_child}
use family_quest.Store.Ledger.{IsBudgeted}
use family_quest.Store.Reading.{
  complete_reading, complete_valid, complete_for, complete_saved, saved_reading, award_reading,
}
use family_quest.Store.ReadingBudget.{complete_reading-IsBudgeted}
use family_quest.Store.ReadingRetry.{complete_reading_retry}
use family_quest.Examples.Data.{database, evening, noon, profile, noon_date}

validate_profile-son : validate_profile profile noon ≡ ok tt
unfolding validate_profile valid_birth parse_date format_date codes_lt
validate_profile-son = rw noon_date refl

policy_allows_easy_example :
    (allows_math (policy profile noon) "easy" ≡ true)
    × (allows_reading (policy profile noon) "phrases" ≡ true)
policy_allows_easy_example = policy_allows_easy profile noon validate_profile-son

abbrev long_text : ReadingCompletion
long_text = record { id = "0123456789abcdef0123456789abcdef"; level = "advanced" }

abbrev started_reading : Db
started_reading = record database {
  reading_starts =
      record {
        id = "0123456789abcdef0123456789abcdef";
        participant_id = pos 2;
        level = "advanced";
        policy_version = pos 1;
        created_at = noon;
      }
      ∷ [];
}

reading_award_bounds_example :
    (pos 0 ≤ℤ reading_award long_text (pos 25))
    × (reading_award long_text (pos 25) ≤ℤ reading_stars long_text)
    × (pos 25 +ℤ reading_award long_text (pos 25) ≤ℤ max_int (pos 25) reading_daily_star_limit)
reading_award_bounds_example = reading_award_bounds long_text (pos 25) (omega arith) (omega arith)

notification_retry_delay_bounds_example :
    (5 * second ≤ notification_retry_delay (pos 3))
    × (notification_retry_delay (pos 3) ≤ hour)
    × ((pos 3 ≤ℤ pos 20) → (notification_retry_delay (pos 3) ≤ notification_retry_delay (pos 20)))
notification_retry_delay_bounds_example = notification_retry_delay_bounds (pos 3) (pos 20)

IsBudgeted-reading : IsBudgeted "reading" 30 []
unfolding earned_stars
IsBudgeted-reading = record { gains = refl; within = λ who date. omega arith }

complete_reading-IsBudgeted_example :
    IsBudgeted "reading" 30
      (complete_reading started_reading (pos 2) long_text noon).0.activity_rewards
complete_reading-IsBudgeted_example =
    complete_reading-IsBudgeted started_reading (pos 2) long_text noon IsBudgeted-reading

-- The text has been started, and is completed.
text_completed :
    (complete_reading started_reading (pos 2) long_text noon).1
    ≡ ok (reading_reward long_text (pos 2) (pos 0) noon)
unfolding complete_reading complete_valid validate_completion reading_stars complete_for
    active_child complete_saved saved_reading award_reading earned_stars
text_completed = refl

complete_reading_retry_example :
    complete_reading
      (complete_reading started_reading (pos 2) long_text noon).0
      (pos 2)
      long_text
      evening
    ≡ (
      (complete_reading started_reading (pos 2) long_text noon).0,
      ok (reading_reward long_text (pos 2) (pos 0) noon),
    )
complete_reading_retry_example =
    complete_reading_retry started_reading (pos 2) long_text noon evening
      (reading_reward long_text (pos 2) (pos 0) noon) text_completed

abbrev ice_cream : Reward
ice_cream = record {
  id = pos 0;
  title = "Мороженое";
  description = "";
  period = "";
  reward_type = "stars";
  star_cost = pos 20;
  smile_cost = pos 5;
  participant_ids = pos 2 ∷ [];
  participant_names = [];
  active = true;
  created_at = noon;
}

ice_cream_accepted : (normalize_reward ice_cream).1 ≡ none
unfolding normalize_reward valid_reward trim_space trim_left trim_right is_empty is_space
ice_cream_accepted = refl

normalize_reward-is_priced_example : is_priced (normalize_reward ice_cream).0 ≡ true
normalize_reward-is_priced_example = normalize_reward-is_priced ice_cream ice_cream_accepted
