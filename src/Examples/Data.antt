-- ===== src/Examples/Data.antt =====
-- Concrete cards, sessions and participants (backend/internal/domain, backend/internal/store).
use family_quest.Base.{
  ◌≡◌, refl, digit, digits_of, digits_fuel, text_of, decimal, true, false, List, [], ◌∷◌, String, ℤ,
  pos, none,
}
use family_quest.Domain.Dates.{
  Time, is_leap, days_in, checked_date, parse_codes, parse_date, date_of_day, format_date,
  family_date, valid_year, valid_family_date,
}
use family_quest.Domain.Principals.{Principal}
use family_quest.Domain.Profile.{LearningProfile}
use family_quest.Family.Entry.{FamilyEntry, FamilyDraft, FamilyStep, FamilyCommand}
use family_quest.Math.Settings.{MathSettings, MathQuestion}
use family_quest.Math.Session.{MathSession, MathAnswer}
use family_quest.Store.Db.{Db}

-- Noon of the first of January 2024 in Greenwich.
abbrev pub noon : Time
noon = 63_839_707_200_000_000_000

abbrev pub evening : Time
evening = 63_839_728_800_000_000_000

abbrev pub principal : ℤ → String → Principal
principal id role = record {
  mcp_grant_id = "";
  mcp_read_only = false;
  family_id = pos 1;
  device_id = "d";
  confirmed_until = pos 0;
  session_version = pos 1;
  participant_id = id;
  role = role;
}

abbrev pub mother : Principal
mother = principal (pos 1) "parent"

abbrev pub son : Principal
son = principal (pos 2) "child"

abbrev pub draft : List FamilyStep → FamilyDraft
draft steps = record {
  sport = none;
  title = "Поход";
  description = "";
  date = "2024-01-01";
  participant_ids = pos 2 ∷ [];
  steps = steps;
  weekdays = pos 1 ∷ pos 3 ∷ [];
  reminder = "";
  easy_version = "";
  value = "";
  agreement = "";
  next_activity = "";
  photo = "";
  audio = "";
}

abbrev pub card : String → FamilyEntry
card kind = record {
  id = pos 7;
  version = pos 3;
  kind = kind;
  author_id = pos 1;
  created_at = noon;
  updated_at = noon;
  archived = false;
  approved = false;
  draft = draft (record { title = "Рюкзак"; participant_id = pos 0 } ∷ []);
  events = [];
}

abbrev pub command : String → ℤ → FamilyCommand
command action step = record {
  version = pos 3;
  action = action;
  date = "2024-01-01";
  step = step;
  note = "";
  easy = false;
}

abbrev pub settings : MathSettings
settings = record {
  operation = "+";
  level = "easy";
  answer_mode = "input";
  division_mode = "result";
  allow_negative = false;
}

abbrev pub question : MathQuestion
question = record { left = pos 2; right = pos 3; options = [] }

abbrev pub session : List MathAnswer → MathSession
session answers = record {
  policy_version = pos 1;
  reward_version = pos 3;
  closed = false;
  id = "0123456789abcdef0123456789abcdef";
  participant_id = pos 2;
  settings = settings;
  questions =
      question ∷ question ∷ question ∷ question ∷ question ∷ question ∷ question ∷ question ∷ [];
  answers = answers;
  created_at = noon;
}

abbrev pub right_answer : MathAnswer
right_answer = record {
  index = pos 0;
  values = ("answer", pos 5) ∷ [];
  correct = true;
  stars = pos 2;
  date = "2024-01-01";
}

abbrev pub profile : LearningProfile
profile = record { birth_date = "2014-05-02"; math_level = ""; reading_level = "sentences" }

abbrev pub database : Db
database = record {
  family_id = pos 1;
  participants = record { id = pos 2; role = "child"; active = true; profile = profile } ∷ [];
  math_sessions =
      record {
        id = "0123456789abcdef0123456789abcdef";
        participant_id = pos 2;
        session = session [];
      }
      ∷ [];
  activity_rewards = [];
  reading_starts = [];
  family_entries = [];
  next_entry_id = pos 1;
}

pub noon_date : family_date noon ≡ "2024-01-01"
unfolding family_date format_date date_of_day is_leap days_in decimal digits_of digits_fuel text_of
    digit
noon_date = refl

pub card_date : valid_family_date "2024-01-01" ≡ true
unfolding valid_family_date parse_date parse_codes checked_date valid_year is_leap days_in
card_date = refl

pub noon_valid : valid_family_date (family_date noon) ≡ true
noon_valid = rw noon_date card_date
