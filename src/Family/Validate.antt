-- ===== src/Family/Validate.antt =====
-- `FamilyEntry.Validate` and `validateSport` (backend/internal/domain/family.go and sport.go), in
-- the order of their checks. Every refusal is `ErrInvalidInput`; the message is left out.
use Prim.Native.String.{count}
use family_quest.Base.{
  ℕ, ◌+◌, ◌-◌, ◌*◌, Bool, true, false, not, ◌&&◌, ◌||◌, List, [], ◌∷◌, String, ℤ, pos, lt_ℤ, le_ℤ,
  str_eq, one_of, mem_ℤ, all, any, length, codes, trim_space, Result, err, invalid_input, fail_if,
  ◌>>◌, Option, none, some, ltb, ◌==◌, if◌then◌else◌,
}
use family_quest.Domain.Dates.{valid_family_date, is_digit, is_zero_time}
use family_quest.Family.Entry.{
  FamilyEntry, FamilyStep, FamilyEvent, SportSession, SportExercise, valid_number, is_zero_number,
}
use family_quest.Family.Media.{validate_family_media}

abbrev pub is_blank : String → Bool
is_blank s = str_eq (trim_space s) ""

abbrev pub has_date : FamilyEntry → Bool
has_date e = not (str_eq e.date "")

unfoldable pub valid_exercise : SportExercise → Bool
valid_exercise x = not (
    is_blank x.name
    || ltb 100 (count x.name)
    || lt_ℤ x.sets (pos 1)
    || lt_ℤ (pos 100) x.sets
    || lt_ℤ x.reps (pos 1)
    || lt_ℤ (pos 10000) x.reps
    || not (valid_number x.weight_kg 1000))

abbrev is_one : ℕ → Bool
is_one n = n == 1

unfoldable pub validate_sport_session : FamilyEntry → Option SportSession → Result (Unit {0})
unfolding valid_exercise
validate_sport_session e none = err invalid_input
validate_sport_session e (some s) = do
  fail_if
      (not (is_one (length e.participant_ids))
        || not (valid_family_date e.date)
        || is_blank s.activity
        || ltb 80 (count s.activity))
      invalid_input
  fail_if
      (not (valid_number s.minutes 1440)
        || is_zero_number s.minutes
        || not (valid_number s.distance_km 2000)
        || ltb 50 (length s.exercises))
      invalid_input
  fail_if (not (all valid_exercise s.exercises)) invalid_input

abbrev is_some {ℓ} : {A : Type ℓ} → Option A → Bool
is_some none = false
is_some (some _) = true

unfoldable pub validate_sport : FamilyEntry → Result (Unit {0})
unfolding validate_sport_session
validate_sport e =
    if str_eq e.kind "sport"
    then validate_sport_session e e.sport
    else fail_if (is_some e.sport) invalid_input

-- The loop over the participants: each is positive and new.
unfoldable pub distinct_participants : List ℤ → List ℤ → Bool
distinct_participants seen [] = true
distinct_participants seen (id ∷ ids) =
    not (le_ℤ id (pos 0) || mem_ℤ id seen) && distinct_participants (id ∷ seen) ids

unfoldable pub distinct_weekdays : List ℤ → List ℤ → Bool
distinct_weekdays days [] = true
distinct_weekdays days (d ∷ ds) =
    not (lt_ℤ d (pos 0) || lt_ℤ (pos 6) d || mem_ℤ d days) && distinct_weekdays (d ∷ days) ds

unfoldable pub valid_step : FamilyEntry → FamilyStep → Bool
valid_step e step =
    not (is_blank step.title || ltb 500 (count step.title) || lt_ℤ step.participant_id (pos 0))
    && not (
        lt_ℤ (pos 0) step.participant_id
        && ltb 0 (length e.participant_ids)
        && not (mem_ℤ step.participant_id e.participant_ids))

-- `time.Parse("15:04", value)`: one or two digits of the hour, two of the minute.
abbrev valid_clock : ℕ → ℕ → ℕ → ℕ → ℕ → Bool
valid_clock h k colon m n =
    is_digit h
    && is_digit k
    && (colon == b':')
    && is_digit m
    && is_digit n
    && ltb ((h - 48) * 10 + (k - 48)) 24
    && ltb m b'6'

unfoldable pub valid_time : List ℕ → Bool
valid_time (h ∷ k ∷ c ∷ m ∷ n ∷ []) = valid_clock h k c m n
valid_time (h ∷ c ∷ m ∷ n ∷ []) = valid_clock b'0' h c m n
valid_time _ = false

-- The loop over the history.
unfoldable pub valid_event : ℕ → FamilyEvent → Bool
valid_event steps v =
    not (
      le_ℤ v.actor_id (pos 0)
      || not (valid_family_date v.date)
      || ltb 2000 (count v.note)
      || is_zero_time v.created_at)
    && one_of v.kind ("checkin" ∷ "step" ∷ "stage" ∷ "reflection" ∷ "repeat" ∷ [])
    && not (str_eq v.kind "step" && (lt_ℤ v.step (pos 0) || le_ℤ (pos steps) v.step))
    && not (str_eq v.kind "stage" && (lt_ℤ v.step (pos 1) || lt_ℤ (pos 4) v.step))

abbrev too_long : ℕ → String → Bool
too_long most s = ltb most (count s)

unfoldable pub valid_texts : FamilyEntry → Result (Unit {0})
valid_texts e = do
  fail_if
      (not (
        one_of e.kind (
          "adventure" ∷ "habit" ∷ "value" ∷ "skill" ∷ "proposal" ∷ "council" ∷ "memory" ∷ "sport"
          ∷ [])))
      invalid_input
  fail_if (is_blank e.title || too_long 160 e.title) invalid_input
  fail_if
      (any (too_long 4000) (e.description ∷ e.agreement ∷ e.next_activity ∷ e.easy_version ∷ []))
      invalid_input
  fail_if (str_eq e.kind "value" && (is_blank e.value || is_blank e.description)) invalid_input
  fail_if (too_long 100 e.value) invalid_input
  fail_if (has_date e && not (valid_family_date e.date)) invalid_input
  fail_if (one_of e.kind ("memory" ∷ "council" ∷ "adventure" ∷ "proposal" ∷ []) && not (has_date e))
      invalid_input

unfoldable pub valid_sizes : FamilyEntry → Result (Unit {0})
valid_sizes e =
    fail_if
      (ltb 50 (length e.participant_ids) || ltb 30 (length e.steps) || ltb 10000 (length e.events))
      invalid_input

unfoldable pub valid_plan : FamilyEntry → Result (Unit {0})
valid_plan e = do
  fail_if (not (distinct_participants [] e.participant_ids)) invalid_input
  fail_if (not (all (valid_step e) e.steps)) invalid_input
  fail_if (one_of e.kind ("adventure" ∷ "proposal" ∷ []) && (length e.steps == 0)) invalid_input
  fail_if (str_eq e.kind "habit" && ((length e.weekdays == 0) || ltb 7 (length e.weekdays)))
      invalid_input
  fail_if (not (distinct_weekdays [] e.weekdays)) invalid_input
  fail_if (not (str_eq e.reminder "") && not (valid_time (codes e.reminder))) invalid_input

unfoldable pub valid_attachments : FamilyEntry → Result (Unit {0})
valid_attachments e = do
  fail_if (not (str_eq e.kind "memory") && (not (str_eq e.photo "") || not (str_eq e.audio "")))
      invalid_input
  fail_if (not (validate_family_media e.photo false)) invalid_input
  fail_if (not (validate_family_media e.audio true)) invalid_input

unfoldable pub valid_history : FamilyEntry → Result (Unit {0})
valid_history e = fail_if (not (all (valid_event (length e.steps)) e.events)) invalid_input

-- `FamilyEntry.Validate`.
unfoldable pub validate : FamilyEntry → Result (Unit {0})
validate e = do
  validate_sport e
  valid_texts e
  valid_sizes e
  valid_plan e
  valid_attachments e
  valid_history e
