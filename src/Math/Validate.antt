-- ===== src/Math/Validate.antt =====
-- `MathSession.Validate` (backend/internal/domain/math.go), which replays the answers.
use Prim.Native.String.{len}
use family_quest.Base.{
  ℕ, ◌+◌, Bool, true, false, not, ◌&&◌, ◌||◌, List, [], ◌∷◌, ℤ, pos, lt_ℤ, le_ℤ, eq_ℤ, ◌%ℤ◌, mem_ℤ,
  str_eq, all, length, get_elem?, codes, leb, ltb, ◌==◌, Error, Result, ok, err, invalid_input,
  fail_if, ◌>>=◌, ◌>>◌, Option, none, some, if◌then◌else◌,
}
use family_quest.Domain.Dates.{Time, Date, valid_family_date, parse_date, date_time, is_zero_time}
use family_quest.Math.Settings.{
  MathSettings, MathQuestion, valid_settings, question_count, result_of,
}
use family_quest.Math.Session.{MathAnswer, MathSession, submit}

abbrev pub hex_digit : ℕ → Bool
hex_digit c = (leb b'0' c && leb c b'9') || (leb b'a' c && leb c b'f')

unfoldable pub distinct_options : List ℤ → List ℤ → Bool
distinct_options seen [] = true
distinct_options seen (v ∷ vs) = not (mem_ℤ v seen) && distinct_options (v ∷ seen) vs

unfoldable pub valid_operands : MathSettings → MathQuestion → Bool
valid_operands s q = not (
    lt_ℤ q.left (pos 0)
    || lt_ℤ (pos 2000) q.left
    || lt_ℤ q.right (pos 0)
    || lt_ℤ (pos 1000) q.right
    || (str_eq s.operation ":" && (eq_ℤ q.right (pos 0) || not (eq_ℤ (q.left %ℤ q.right) (pos 0))))
    || (str_eq s.operation "-"
        && (not s.allow_negative || str_eq s.level "columnar")
        && lt_ℤ q.left q.right))

unfoldable pub valid_options : MathSettings → MathQuestion → Bool
valid_options s q =
    if str_eq s.answer_mode "choice"
    then (length q.options == 4)
      && mem_ℤ (result_of q s.operation) q.options
      && distinct_options [] q.options
    else length q.options == 0

unfoldable pub valid_question : MathSettings → MathQuestion → Bool
valid_question s q = valid_operands s q && valid_options s q

abbrev pub day_time : Option Date → Time
day_time none = 0
day_time (some d) = date_time d

-- The recorded answer against the one that the replay gives.
unfoldable pub answer_agrees : ℤ → MathAnswer → Bool → ℤ → Bool
answer_agrees version a right stars =
    ((right && a.correct) || (not right && not a.correct))
    && le_ℤ (pos 0) a.stars
    && le_ℤ a.stars stars
    && not (eq_ℤ version (pos 0) && not (eq_ℤ stars a.stars))

unfoldable pub compare_answer : ℤ → MathAnswer → Option MathAnswer → Result (Unit {0})
compare_answer version a none = err invalid_input
compare_answer version a (some got) =
    fail_if (not (answer_agrees version a got.correct got.stars)) invalid_input

unfoldable pub submitted : MathSession × Option Error → Result MathSession
submitted (check, none) = ok check
submitted (check, some e) = err e

unfoldable pub agreed : ℤ → ℕ → MathAnswer → MathSession → Result MathSession
agreed version i a check = do compare_answer version a (get_elem? check.answers i); ok check

-- One round of the replay: the session `check` answers the question again.
unfoldable pub replay_answer : ℕ → MathAnswer → MathSession → Result MathSession
replay_answer i a check = do
  fail_if (not (valid_family_date a.date) || not (eq_ℤ a.index (pos i))) invalid_input
  check' ← submitted (submit check (pos i) a.values (day_time (parse_date a.date)))
  agreed check.reward_version i a check'

unfoldable pub replay : ℕ → List MathAnswer → MathSession → Result MathSession
replay i [] check = ok check
replay i (a ∷ later) check = replay_answer i a check >>= replay (i + 1) later

unfoldable pub valid_frame : MathSession → Result (Unit {0})
valid_frame s = do
  fail_if
      ((not (eq_ℤ s.reward_version (pos 0))
          && not (eq_ℤ s.reward_version (pos 2))
          && not (eq_ℤ s.reward_version (pos 3)))
        || not (len s.id == 32)
        || le_ℤ s.participant_id (pos 0)
        || is_zero_time s.created_at
        || not (valid_settings s.settings)
        || not (eq_ℤ (pos (length s.questions)) (question_count s.settings)))
      invalid_input
  fail_if (not (all hex_digit (codes s.id))) invalid_input
  fail_if (not (all (valid_question s.settings) s.questions)) invalid_input

-- `MathSession.Validate`.
unfoldable pub validate_session : MathSession → Result (Unit {0})
validate_session s = do
  fail_if (ltb (length s.questions) (length s.answers)) invalid_input
  valid_frame s
  replayed ← replay 0 s.answers (record s { closed = false; answers = [] })
  ok tt
