-- ===== src/Math/Session.antt =====
-- `MathSession` (backend/internal/domain/math.go): `Submit` and `AwardAnswer`. A method that
-- mutates the session returns the new one; an answer's index that is out of range, at which Go
-- panics, leaves the session as it is, and is not reached by the callers.
use family_quest.Base.{
  Bool, true, not, ◌&&◌, ◌||◌, List, [], ◌∷◌, ◌++◌, String, ℤ, pos, negsuc, lt_ℤ, le_ℤ, eq_ℤ,
  pos_part, ◌-ℤ◌, wrap64, length, get_elem?, set, format_int, ◌&◌, Error, invalid_input, conflict,
  Option, none, some, ◌==◌, if◌then◌else◌,
}
use family_quest.Domain.Dates.{Time, family_date}
use family_quest.Domain.ActivityRewards.{ActivityReward}
use family_quest.Math.Settings.{
  MathSettings, MathQuestion, stars_of, previous_stars, legacy_stars, max_int,
}
use family_quest.Math.Work.{Values, lookup, work}

pub record MathAnswer : Type 0 where
  pub index : ℤ
  pub values : Values
  pub correct : Bool
  pub stars : ℤ
  pub date : String

pub record MathSession : Type 0 where
  pub policy_version : ℤ
  pub reward_version : ℤ
  pub closed : Bool
  pub id : String
  pub participant_id : ℤ
  pub settings : MathSettings
  pub questions : List MathQuestion
  pub answers : List MathAnswer
  pub created_at : Time

abbrev pub math_daily_star_limit : ℤ
math_daily_star_limit = pos 40

abbrev pub previous_math_daily_star_limit : ℤ
previous_math_daily_star_limit = pos 30

-- One value of the answer: none where it is missing or out of range, else whether it is right.
unfoldable pub check_value : ℤ → Option ℤ → Option Bool
check_value want none = none
check_value want (some v) =
    if lt_ℤ v (negsuc 999_999) || lt_ℤ (pos 1_000_000) v then none else some (eq_ℤ v want)

abbrev pub both : Option Bool → Option Bool → Option Bool
both (some a) (some b) = some (a && b)
both _ _ = none

-- The loop over the expected values. Go takes them in any order; the result does not depend on it.
unfoldable pub check_values : Values → Values → Option Bool
unfolding check_value lookup
check_values values [] = some true
check_values values ((k, want) ∷ expected) =
    both (check_value want (lookup k values)) (check_values values expected)

-- The stars of a right answer, by the version of the reward scheme.
unfoldable pub version_stars : ℤ → MathSettings → ℤ
version_stars version settings =
    if eq_ℤ version (pos 0)
    then legacy_stars settings
    else if eq_ℤ version (pos 2)
    then previous_stars settings
    else stars_of settings

unfoldable pub reward_stars : MathSession → ℤ
reward_stars s = version_stars s.reward_version s.settings

unfoldable pub new_answer : MathSession → ℤ → Values → Bool → Time → MathAnswer
new_answer s i values right now = record {
  index = i;
  values = values;
  correct = right;
  stars = if right then reward_stars s else pos 0;
  date = family_date now;
}

unfoldable pub grade : MathSettings → Values → Option MathQuestion → Option Bool
grade settings values none = none
grade settings values (some q) =
    let expected = (work q settings).1 in
    if not (length values == length expected) then none else check_values values expected

unfoldable pub record_answer :
    MathSession → ℤ → Values → Time → Option Bool → MathSession × Option Error
record_answer s i values now none = (s, some invalid_input)
record_answer s i values now (some right) =
    (record s { answers = s.answers ++ new_answer s i values right now ∷ [] }, none)

-- `MathSession.Submit`.
unfoldable pub submit : MathSession → ℤ → Values → Time → MathSession × Option Error
submit s i values now =
    if lt_ℤ i (pos 0) || le_ℤ (pos (length s.questions)) i
    then (s, some invalid_input)
    else if lt_ℤ i (pos (length s.answers))
    then (s, none)
    else if s.closed
    then (s, some conflict)
    else if not (eq_ℤ i (pos (length s.answers)))
    then (s, some conflict)
    else record_answer s i values now (grade s.settings values (get_elem? s.questions (pos_part i)))

abbrev pub min_int : ℤ → ℤ → ℤ
min_int a b = if lt_ℤ b a then b else a

unfoldable pub daily_limit : MathSession → ℤ
daily_limit s =
    if eq_ℤ s.reward_version (pos 2) then previous_math_daily_star_limit else math_daily_star_limit

-- What the day's budget leaves of an answer's stars.
unfoldable pub capped_stars : MathSession → ℤ → ℤ → ℤ
capped_stars s stars earned =
    if le_ℤ (pos 2) s.reward_version
    then min_int stars (max_int (pos 0) (wrap64 (daily_limit s -ℤ earned)))
    else stars

unfoldable pub math_reward : MathSession → ℤ → MathAnswer → ActivityReward
math_reward s i a = record {
  source = "math";
  source_key = s.id & ":" & format_int i;
  participant_id = s.participant_id;
  date = a.date;
  stars = a.stars;
  smiles = pos 0;
  title = "Математика " & s.settings.operation;
}

unfoldable pub award_stored :
    MathSession → ℤ → ℤ → Option MathAnswer → MathSession × Option ActivityReward
award_stored s i earned none = (s, none)
award_stored s i earned (some given) =
    let a = record given { stars = capped_stars s given.stars earned } in
    (
      record s { answers = set s.answers (pos_part i) a },
      if eq_ℤ a.stars (pos 0) then none else some (math_reward s i a),
    )

-- `MathSession.AwardAnswer`.
unfoldable pub award_answer : MathSession → ℤ → ℤ → MathSession × Option ActivityReward
award_answer s i earned =
    if lt_ℤ i (pos 0) then (s, none) else award_stored s i earned (get_elem? s.answers (pos_part i))
