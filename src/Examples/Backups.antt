-- ===== src/Examples/Backups.antt =====
-- An archive with one reward for reading (backend/internal/application/learning_backup.go).
use family_quest.Base.{
  ◌≡◌, refl, true, [], ◌∷◌, String, pos, ◌≤ℤ◌, ok, ◌/ℤ◌, ◌-ℤ◌, ◌+ℤ◌, wrap64, digit, digits_of,
  digits_fuel, text_of, decimal, format_int,
}
use family_quest.Domain.Dates.{
  is_leap, checked_date, parse_codes, parse_date, days_in, valid_year, valid_family_date,
}
use family_quest.Domain.ActivityRewards.{ActivityReward}
use family_quest.Domain.Reading.{reading_stars, reading_title, validate_completion}
use family_quest.Store.Db.{earned_stars}
use family_quest.Application.Backup.{BackupData, BackupParticipant}
use family_quest.Application.BackupLessons.{
  role_from, check_sessions, check_rewards, check_daily, check_reading, validate_learning,
}
use family_quest.Application.BackupBudget.{learning-reading_budget}
use family_quest.Examples.Data.{noon, profile}

abbrev reader : BackupParticipant
reader = record {
  learning_profile = profile;
  id = pos 2;
  name = "Петя";
  role = "child";
  pin_code = "";
  active = true;
  created_at = noon;
}

abbrev lesson_id : String
lesson_id = "0123456789abcdef0123456789abcdef"

abbrev lesson_reward : ActivityReward
lesson_reward = record {
  source = "reading";
  source_key = lesson_id;
  participant_id = pos 2;
  date = "2024-01-01";
  stars = pos 5;
  smiles = pos 0;
  title = reading_title (record { id = lesson_id; level = "phrases" });
}

abbrev archive : BackupData
archive = record {
  family_id = pos 1;
  math_sessions = [];
  activity_rewards = lesson_reward ∷ [];
  family_entries = [];
  version = pos 6;
  exported_at = noon;
  participants = reader ∷ [];
  chores = [];
  assignments = [];
  tasks = [];
  confirmations = [];
  behavior_ratings = [];
  rewards = [];
  reward_participants = [];
}

archive-accepted : validate_learning archive ≡ ok tt
unfolding validate_learning check_sessions check_rewards check_daily check_reading role_from
    validate_completion reading_stars reading_title valid_family_date parse_date parse_codes
    checked_date valid_year is_leap days_in ◌+ℤ◌ ◌-ℤ◌ ◌/ℤ◌ wrap64 format_int decimal digits_of
    digits_fuel text_of digit
archive-accepted = refl

learning-reading_budget_example :
    earned_stars "reading" (pos 2) "2024-01-01" archive.activity_rewards ≤ℤ pos 30
learning-reading_budget_example =
    learning-reading_budget archive (pos 2) "2024-01-01" archive-accepted
