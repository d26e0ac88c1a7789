-- ===== src/Domain/Dates.antt =====
-- Calendar dates (backend/internal/domain/date.go and `ValidFamilyDate` of family.go), with what
-- they use of Go's package time: parsing and printing the layout 2006-01-02, and weekdays.
-- A time is the number of nanoseconds since 1 January of year 1, UTC, Go's zero time.
use family_quest.Base.{
  ℕ, ◌+◌, ◌-◌, ◌*◌, ◌/◌, ◌%◌, ◌≡◌, refl, Bool, true, false, not, ◌&&◌, ◌||◌, Option, none, some,
  List, [], ◌∷◌, String, text_of, ◌&◌, if◌then◌else◌, leb, ltb, ◌==◌, codes,
}

abbrev pub Time : Type 0
Time = ℕ

-- `time.Time.IsZero`.
abbrev pub is_zero_time : Time → Bool
is_zero_time t = t == 0

abbrev pub is_digit : ℕ → Bool
is_digit c = leb b'0' c && leb c b'9'

pub record Date : Type 0 where
  pub year : ℕ
  pub month : ℕ
  pub day : ℕ

unfoldable pub is_leap : ℕ → Bool
is_leap y = (y % 4 == 0) && (not (y % 100 == 0) || (y % 400 == 0))

unfoldable pub days_in : ℕ → ℕ → ℕ
unfolding is_leap
days_in m y =
    if m == 2
    then (if is_leap y then 29 else 28)
    else if (m == 4) || (m == 6) || (m == 9) || (m == 11)
    then 30
    else 31

abbrev two_digits : ℕ → ℕ → ℕ
two_digits a b = (a - 48) * 10 + (b - 48)

-- The digits of a date are in range: month 1 to 12, day 1 to the month's last.
unfoldable pub checked_date : ℕ → ℕ → ℕ → Option Date
unfolding days_in
checked_date y m d =
    if leb 1 m && leb m 12 && leb 1 d && leb d (days_in m y)
    then some (record { year = y; month = m; day = d })
    else none

-- `time.Parse("2006-01-02", value)`.
unfoldable pub parse_codes : List ℕ → Option Date
unfolding checked_date
parse_codes (a ∷ b ∷ c ∷ d ∷ h ∷ m ∷ n ∷ k ∷ e ∷ f ∷ []) =
    if is_digit a
      && is_digit b
      && is_digit c
      && is_digit d
      && (h == b'-')
      && is_digit m
      && is_digit n
      && (k == b'-')
      && is_digit e
      && is_digit f
    then checked_date (two_digits a b * 100 + two_digits c d) (two_digits m n) (two_digits e f)
    else none
parse_codes _ = none

unfoldable pub parse_date : String → Option Date
unfolding parse_codes
parse_date s = parse_codes (codes s)

-- Days since 1 March of the year -400, a Wednesday, which starts a cycle of 400 years.
unfoldable pub day_number : Date → ℕ
day_number v =
    let y = v.year + 400 - (if leb v.month 2 then 1 else 0) in
    let mp : ℕ = if leb v.month 2 then v.month + 9 else v.month - 3 in
    let cycle_year = y % 400 in
    y / 400 * 146097
    + (cycle_year * 365 + cycle_year / 4 - cycle_year / 100 + (153 * mp + 2) / 5 + (v.day - 1))

-- `time.Time.Weekday`: Sunday is 0.
unfoldable pub weekday : Date → ℕ
unfolding day_number
weekday v = (day_number v + 3) % 7

-- The date of a day counted from 1 January of year 1.
unfoldable pub date_of_day : ℕ → Date
date_of_day n =
    let z = n + 306 in
    let doe = z % 146097 in
    let yoe = (doe - doe / 1460 + doe / 36524 - doe / 146096) / 365 in
    let doy = doe - (365 * yoe + yoe / 4 - yoe / 100) in
    let mp = (5 * doy + 2) / 153 in
    let m : ℕ = if ltb mp 10 then mp + 3 else mp - 9 in
    record {
      year = z / 146097 * 400 + yoe + (if leb m 2 then 1 else 0);
      month = m;
      day = doy - (153 * mp + 2) / 5 + 1;
    }

-- `Format("2006-01-02")`, for years of at most four digits.
unfoldable pub format_date : Date → String
unfolding text_of
format_date v =
    let y = v.year in
    text_of ((y / 1000 % 10) ∷ (y / 100 % 10) ∷ (y / 10 % 10) ∷ (y % 10) ∷ [])
    & "-"
    & text_of ((v.month / 10 % 10) ∷ (v.month % 10) ∷ [])
    & "-"
    & text_of ((v.day / 10 % 10) ∷ (v.day % 10) ∷ [])

-- The calendar day in Minsk, three hours ahead of UTC.
unfoldable pub family_date : Time → String
unfolding format_date date_of_day
family_date now = format_date (date_of_day ((now / 1_000_000_000 + 3 * 60 * 60) / 86_400))

-- Midnight of a date, UTC; meant for the years from 1 on.
unfoldable pub date_time : Date → Time
unfolding day_number
date_time v = (day_number v - (146097 + 306)) * 86_400 * 1_000_000_000

unfoldable pub valid_year : Option Date → Bool
valid_year none = false
valid_year (some d) = leb 2000 d.year && leb d.year 2100

unfoldable pub valid_family_date : String → Bool
unfolding parse_date valid_year
valid_family_date value = valid_year (parse_date value)

-- 31 December 2023, 21:30 UTC, is the new year in Minsk.
family_date_midnight : family_date 63839655000000000000 ≡ "2024-01-01"
unfolding family_date
family_date_midnight = refl

leap_days :
    (valid_family_date "2024-02-29" ≡ true)
    × (valid_family_date "2023-02-29" ≡ false)
    × (valid_family_date "2100-02-29" ≡ false)
    × (valid_family_date "2024-2-29" ≡ false)
unfolding valid_family_date
leap_days = (refl, refl, refl, refl)

weekday_of_new_year : weekday (record { year = 2024; month = 1; day = 1 }) ≡ 1
unfolding weekday
weekday_of_new_year = refl
