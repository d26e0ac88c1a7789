-- ===== src/Application/BackupLessons.antt =====
-- The check of an archive's lessons and rewards (backend/internal/application/learning_backup.go),
-- and the whole check (`Validate` of backup.go).
use Prim.Native.String.{count}
use family_quest.Base.{
  ℕ, Bool, false, not, ◌&&◌, ◌||◌, List, [], ◌∷◌, map, String, ◌&◌, ℤ, pos, ◌+ℤ◌, wrap64, le_ℤ,
  lt_ℤ, eq_ℤ, str_eq, any, mem_ℤ, one_of, codes, ltb, ◌==◌, format_int, parse_codes_int, get_elem?,
  length, ◌>>=◌, Result, ok, err, invalid_input, fail_if, ◌>>◌, Option, none, some, if◌then◌else◌,
}
use family_quest.Domain.Dates.{Time, valid_family_date}
use family_quest.Domain.Principals.{role_child, role_parent}
use family_quest.Domain.ActivityRewards.{ActivityReward}
use family_quest.Domain.Reading.{
  ReadingCompletion, reading_stars, reading_title, validate_completion, reading_daily_star_limit,
}
use family_quest.Family.Entry.{FamilyEntry}
use family_quest.Math.Session.{
  MathSession, MathAnswer, math_daily_star_limit, previous_math_daily_star_limit,
}
use family_quest.Math.Validate.{validate_session}
use family_quest.Auth.Token.{bytes_equal, prepend_byte}
use family_quest.Application.Access.{is_err}
use family_quest.Application.Backup.{
  BackupData, BackupParticipant, check_people, leads, validate_family, backup_version,
}

-- A Go map that is written in order: the last value stands.
unfoldable pub role_from : String → List BackupParticipant → ℤ → String
role_from found [] id = found
role_from found (p ∷ ps) id = role_from (if eq_ℤ p.id id then p.role else found) ps id

abbrev pub role_of : List BackupParticipant → ℤ → String
role_of people id = role_from "" people id

unfoldable pub kind_from : String → List FamilyEntry → ℤ → String
kind_from found [] id = found
kind_from found (e ∷ es) id = kind_from (if eq_ℤ e.id id then e.kind else found) es id

abbrev pub has_session : String → MathSession → Bool
has_session id s = str_eq s.id id

abbrev pub is_left_open : MathSession → Bool
is_left_open s = not s.closed && ltb (length s.answers) (length s.questions)

abbrev pub bad_reward_version : ℤ → MathSession → Bool
bad_reward_version version s =
    (lt_ℤ version (pos 4) && not (eq_ℤ s.reward_version (pos 0)))
    || (lt_ℤ version (pos 5) && eq_ℤ s.reward_version (pos 3))

-- The sessions, with those before and the owners of the unfinished ones.
unfoldable pub check_sessions :
    BackupData → List MathSession → List ℤ → List MathSession → Result (Unit {0})
check_sessions b before owners [] = ok tt
check_sessions b before owners (s ∷ ss) = do
  fail_if
      (any (has_session s.id) before
        || not (str_eq (role_of b.participants s.participant_id) role_child))
      invalid_input
  validate_session s
  fail_if ((is_left_open s && mem_ℤ s.participant_id owners) || bad_reward_version b.version s)
      invalid_input
  check_sessions b (s ∷ before) (if is_left_open s then s.participant_id ∷ owners else owners) ss

-- `fmt.Sprintf("%s/%s/%d", …)`.
abbrev pub reward_key : String → String → ℤ → String
reward_key source key who = source & ("/" & (key & ("/" & format_int who)))

-- `strings.Split(key, ":")`.
unfoldable pub split_colon : List ℕ → List (List ℕ)
split_colon [] = [] ∷ []
split_colon (c ∷ cs) =
    let rest = split_colon cs in if c == 58 then [] ∷ rest else prepend_byte c rest

unfoldable pub session_with : List ℕ → List MathSession → Option MathSession
session_with id [] = none
session_with id (s ∷ ss) =
    let rest = session_with id ss in if bytes_equal (codes s.id) id then some s else rest

unfoldable pub answer_at : MathSession → Option ℤ → Option MathAnswer
answer_at s (some (pos i)) = get_elem? s.answers i
answer_at s _ = none

abbrev pub rewards_answer : ActivityReward → MathSession → MathAnswer → Bool
rewards_answer r s a =
    eq_ℤ s.participant_id r.participant_id
    && a.correct
    && eq_ℤ r.stars a.stars
    && eq_ℤ r.smiles (pos 0)
    && str_eq r.date a.date

unfoldable pub is_answered : ActivityReward → MathSession → Option MathAnswer → Bool
is_answered r s none = false
is_answered r s (some a) = rewards_answer r s a

unfoldable pub is_session_reward : ActivityReward → List ℕ → Option MathSession → Bool
is_session_reward r index none = false
is_session_reward r index (some s) = is_answered r s (answer_at s (parse_codes_int index))

unfoldable pub is_math_key : List MathSession → ActivityReward → List (List ℕ) → Bool
is_math_key sessions r (id ∷ index ∷ []) = is_session_reward r index (session_with id sessions)
is_math_key sessions r _ = false

abbrev pub fits_level : ActivityReward → String → Bool
fits_level r level =
    let c : ReadingCompletion = record { id = r.source_key; level = level } in
    not (is_err (validate_completion c))
    && str_eq r.title (reading_title c)
    && le_ℤ (pos 0) r.stars
    && le_ℤ r.stars (reading_stars c)

abbrev pub fits_reading : ActivityReward → Bool
fits_reading r = fits_level r "phrases" || fits_level r "sentences" || fits_level r "advanced"

abbrev pub is_reading_reward : BackupData → ActivityReward → Bool
is_reading_reward b r =
    not (lt_ℤ b.version (pos 5))
    && str_eq (role_of b.participants r.participant_id) role_child
    && fits_reading r
    && eq_ℤ r.smiles (pos 0)

-- The stars of a scheme, or from version 4 on those of the next one.
abbrev pub stars_are : ℤ → ℤ → ℤ → ℤ → Bool
stars_are version stars early late =
    eq_ℤ stars early || (not (lt_ℤ version (pos 4)) && eq_ℤ stars late)

abbrev pub is_sport_reward : BackupData → ActivityReward → Bool
is_sport_reward b r =
    str_eq r.source_key r.date
    && stars_are b.version r.stars (pos 10) (pos 30)
    && eq_ℤ r.smiles (pos 2)

-- The identifier is written as `FormatInt` writes it.
unfoldable pub kind_of_written : List FamilyEntry → List ℕ → Option ℤ → String
kind_of_written entries written none = ""
kind_of_written entries written (some id) =
    if bytes_equal (codes (format_int id)) written then kind_from "" entries id else ""

abbrev pub kind_at : List FamilyEntry → List ℕ → String
kind_at entries written = kind_of_written entries written (parse_codes_int written)

unfoldable pub is_habit_key : BackupData → ActivityReward → List (List ℕ) → Bool
is_habit_key b r (id ∷ date ∷ []) =
    bytes_equal date (codes r.date)
    && str_eq (kind_at b.family_entries id) "habit"
    && eq_ℤ r.stars (pos 5)
    && eq_ℤ r.smiles (pos 1)
is_habit_key b r _ = false

abbrev pub is_adventure_reward : BackupData → ActivityReward → Bool
is_adventure_reward b r =
    one_of (kind_at b.family_entries (codes r.source_key)) ("adventure" ∷ "proposal" ∷ [])
    && stars_are b.version r.stars (pos 20) (pos 40)
    && eq_ℤ r.smiles (pos 3)

abbrev pub is_earned : BackupData → ActivityReward → Bool
is_earned b r =
    if str_eq r.source "math"
    then is_math_key b.math_sessions r (split_colon (codes r.source_key))
    else if str_eq r.source "reading"
    then is_reading_reward b r
    else if str_eq r.source "sport"
    then is_sport_reward b r
    else if str_eq r.source "habit"
    then is_habit_key b r (split_colon (codes r.source_key))
    else if str_eq r.source "adventure"
    then is_adventure_reward b r
    else false

abbrev pub bad_reward : BackupData → List String → ActivityReward → Bool
bad_reward b seen r =
    one_of (reward_key r.source r.source_key r.participant_id) seen
    || not (one_of (role_of b.participants r.participant_id) (role_child ∷ role_parent ∷ []))
    || not (valid_family_date r.date)
    || ltb 160 (count r.title)

unfoldable pub check_rewards : BackupData → List String → List ActivityReward → Result (Unit {0})
check_rewards b seen [] = ok tt
check_rewards b seen (r ∷ rs) = do
  fail_if (bad_reward b seen r || not (is_earned b r)) invalid_input
  check_rewards b (reward_key r.source r.source_key r.participant_id ∷ seen) rs

abbrev pub key_of : ActivityReward → String
key_of r = reward_key r.source r.source_key r.participant_id

abbrev pub is_unpaid : List String → MathSession → MathAnswer → Bool
is_unpaid seen s a =
    lt_ℤ (pos 0) a.stars
    && not (one_of (reward_key "math" (s.id & (":" & format_int a.index)) s.participant_id) seen)

abbrev pub has_unpaid : List String → MathSession → Bool
has_unpaid seen s = any (is_unpaid seen s) s.answers

-- A map from keys to sums, which are zero where nothing was added.
abbrev pub bump : (String → ℤ) → String → ℤ → String → ℤ
bump sums key n = λ k. if str_eq k key then wrap64 (sums k +ℤ n) else sums k

abbrev pub day_key : ℤ → String → String
day_key who date = format_int who & ("/" & date)

abbrev pub no_sums : String → ℤ
no_sums key = pos 0

-- One session's answers, and what is left to check behind them.
unfoldable pub check_answers :
    MathSession
    → List MathAnswer
    → (String → ℤ)
    → (String → ℤ)
    → Result ((String → ℤ) × (String → ℤ))
check_answers s [] daily previous = ok (daily, previous)
check_answers s (a ∷ answers) daily previous =
    let key = day_key s.participant_id a.date in
    let daily' = bump daily key a.stars in
    let previous' = if eq_ℤ s.reward_version (pos 2) then bump previous key a.stars else previous in
    let rest = check_answers s answers daily' previous' in
    if (eq_ℤ s.reward_version (pos 2) && lt_ℤ previous_math_daily_star_limit (previous' key))
      || lt_ℤ math_daily_star_limit (daily' key)
    then err invalid_input
    else rest

unfoldable pub check_daily : List MathSession → (String → ℤ) → (String → ℤ) → Result (Unit {0})
check_daily [] daily previous = ok tt
check_daily (s ∷ ss) daily previous =
    (if lt_ℤ s.reward_version (pos 2)
      then ok (daily, previous)
      else check_answers s s.answers daily previous)
    >>= λ sums. check_daily ss sums.0 sums.1

abbrev pub is_reading : ActivityReward → Bool
is_reading r = str_eq r.source "reading"

abbrev pub bump_reading : (String → ℤ) → ActivityReward → String → ℤ
bump_reading sums r =
    if is_reading r then bump sums (day_key r.participant_id r.date) r.stars else sums

unfoldable pub check_reading : List ActivityReward → (String → ℤ) → Result (Unit {0})
check_reading [] sums = ok tt
check_reading (r ∷ rs) sums =
    let sums' = bump_reading sums r in
    let rest = check_reading rs sums' in
    if is_reading r && lt_ℤ reading_daily_star_limit (sums' (day_key r.participant_id r.date))
    then err invalid_input
    else rest

-- `validateLearning`.
unfoldable pub validate_learning : BackupData → Result (Unit {0})
validate_learning b = do
  fail_if
      (lt_ℤ b.version (pos 3)
        && (ltb 0 (length b.math_sessions) || ltb 0 (length b.activity_rewards)))
      invalid_input
  check_sessions b [] [] b.math_sessions
  check_rewards b [] b.activity_rewards
  fail_if (any (has_unpaid (map key_of b.activity_rewards)) b.math_sessions) invalid_input
  check_daily b.math_sessions no_sums no_sums
  check_reading b.activity_rewards no_sums

abbrev pub known_version : ℤ → Bool
known_version v = mem_ℤ v (pos 1 ∷ pos 2 ∷ pos 3 ∷ pos 4 ∷ pos 5 ∷ backup_version ∷ [])

-- `BackupData.Validate`.
unfoldable pub validate_backup : BackupData → Time → Result (Unit {0})
validate_backup b now = do
  fail_if (not (known_version b.version)) invalid_input
  check_people now b.participants
  fail_if (not (any leads b.participants)) invalid_input
  validate_family b
  validate_learning b
