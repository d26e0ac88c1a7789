-- ===== src/Domain/Reading.antt =====
-- Reading practice (backend/internal/domain/reading.go).
use family_quest.Base.{
  ℕ, Bool, not, ◌&&◌, ◌||◌, String, ℤ, pos, ◌≤ℤ◌, ◌-ℤ◌, ◌+ℤ◌, ◌/ℤ◌, wrap64, lt_ℤ, eq_ℤ, str_eq, all,
  length, codes, leb, ◌==◌, format_int, ◌&◌, Result, invalid_input, fail_if, arith, if◌then◌else◌,
}
use family_quest.Domain.Dates.{Time, family_date}
use family_quest.Domain.ActivityRewards.{ActivityReward}

abbrev pub reading_daily_star_limit : ℤ
reading_daily_star_limit = pos 30

pub record ReadingCompletion : Type 0 where
  pub id : String
  pub level : String

-- `ReadingCompletion.Stars`.
unfoldable pub reading_stars : ReadingCompletion → ℤ
reading_stars c =
    if str_eq c.level "phrases"
    then pos 6
    else if str_eq c.level "sentences"
    then pos 9
    else if str_eq c.level "advanced"
    then pos 12
    else pos 0

abbrev lower_hex : ℕ → Bool
lower_hex c = (leb b'0' c && leb c b'9') || (leb b'a' c && leb c b'f')

-- `hex.DecodeString` followed by `hex.EncodeToString` gives back the text exactly if it has an even
-- number of lower-case hexadecimal digits; sixteen bytes are 32 digits.
unfoldable pub validate_completion : ReadingCompletion → Result (Unit {0})
validate_completion c =
    fail_if
      (not ((length (codes c.id) == 32) && all lower_hex (codes c.id))
        || eq_ℤ (reading_stars c) (pos 0))
      invalid_input

-- `ReadingCompletion.Title`: the level's number is the stars' third less one.
unfoldable pub reading_title : ReadingCompletion → String
reading_title c = "Чтение · уровень " & format_int (reading_stars c /ℤ pos 3 -ℤ pos 1)

abbrev min_int : ℤ → ℤ → ℤ
min_int a b = if lt_ℤ b a then b else a

abbrev pub max_int : ℤ → ℤ → ℤ
max_int a b = if lt_ℤ a b then b else a

-- What the day's budget leaves of a completion's stars.
unfoldable pub reading_award : ReadingCompletion → ℤ → ℤ
reading_award c earned =
    min_int (reading_stars c) (max_int (pos 0) (wrap64 (reading_daily_star_limit -ℤ earned)))

-- `ReadingCompletion.Reward`.
unfoldable pub reading_reward : ReadingCompletion → ℤ → ℤ → Time → ActivityReward
reading_reward c owner earned now = record {
  source = "reading";
  source_key = c.id;
  participant_id = owner;
  date = family_date now;
  stars = reading_award c earned;
  smiles = pos 0;
  title = reading_title c;
}

-- The award is never negative, never more than the level gives, and with it the day stays within
-- the limit, or where it was beyond: where the day's total is not negative and at most 9 * 10 ^ 18.
pub reading_award_bounds :
    (c : ReadingCompletion) (earned : ℤ)
    → pos 0 ≤ℤ earned
    → earned ≤ℤ pos 9_000_000_000_000_000_000
    → (pos 0 ≤ℤ reading_award c earned)
      × (reading_award c earned ≤ℤ reading_stars c)
      × (earned +ℤ reading_award c earned ≤ℤ max_int earned reading_daily_star_limit)
unfolding reading_award reading_stars wrap64 ◌-ℤ◌ ◌+ℤ◌
reading_award_bounds c earned h k = ground arith
