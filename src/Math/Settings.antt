-- ===== src/Math/Settings.antt =====
-- `MathSettings` and `MathQuestion` (backend/internal/domain/math.go).
use family_quest.Base.{
  Bool, not, ◌&&◌, ◌||◌, List, [], ◌∷◌, String, ℤ, pos, lt_ℤ, eq_ℤ, ◌+ℤ◌, ◌-ℤ◌, ◌*ℤ◌, ◌/ℤ◌, wrap64,
  str_eq, one_of, Result, ok, err, invalid_input, if◌then◌else◌,
}

pub record MathSettings : Type 0 where
  pub operation : String
  pub level : String
  pub answer_mode : String
  pub division_mode : String
  pub allow_negative : Bool

unfoldable pub valid_settings : MathSettings → Bool
valid_settings s = not (
    not (one_of s.operation ("+" ∷ "-" ∷ "*" ∷ ":" ∷ []))
    || not (one_of s.level ("easy" ∷ "medium" ∷ "hard" ∷ "columnar" ∷ []))
    || not (one_of s.answer_mode ("input" ∷ "choice" ∷ []))
    || not (one_of s.division_mode ("result" ∷ "steps" ∷ "full" ∷ []))
    || (str_eq s.level "columnar" && not (str_eq s.answer_mode "input")))

-- `MathSettings.Validate`.
unfoldable pub validate_settings : MathSettings → Result (Unit {0})
unfolding valid_settings
validate_settings s = if valid_settings s then ok tt else err invalid_input

-- `MathSettings.Count`.
unfoldable pub question_count : MathSettings → ℤ
question_count s =
    if str_eq s.level "medium" then pos 12 else if str_eq s.level "hard" then pos 15 else pos 8

unfoldable pub legacy_stars : MathSettings → ℤ
legacy_stars s =
    if str_eq s.level "easy" then pos 1 else if str_eq s.level "medium" then pos 2 else pos 3

unfoldable pub max_int : ℤ → ℤ → ℤ
max_int a b = if lt_ℤ b a then a else b

unfoldable pub columnar_stars : MathSettings → ℤ
columnar_stars s =
    if str_eq s.operation "*"
    then pos 4
    else if str_eq s.operation ":"
    then (if str_eq s.division_mode "full"
        then pos 5
        else if str_eq s.division_mode "steps"
        then pos 4
        else pos 3)
    else pos 3

-- The operation raises the reward, a choice of answers lowers it.
unfoldable pub with_operation : MathSettings → ℤ → ℤ
with_operation s stars =
    if str_eq s.operation "*" || str_eq s.operation ":" then stars +ℤ pos 1 else stars

unfoldable pub with_answer_mode : MathSettings → ℤ → ℤ
with_answer_mode s stars =
    if str_eq s.answer_mode "choice" then max_int (pos 1) (stars -ℤ pos 1) else stars

unfoldable pub previous_stars : MathSettings → ℤ
unfolding columnar_stars with_operation with_answer_mode legacy_stars max_int
previous_stars s =
    if str_eq s.level "columnar"
    then columnar_stars s
    else with_answer_mode s (with_operation s (legacy_stars s))

-- `MathSettings.Stars`.
unfoldable pub stars_of : MathSettings → ℤ
unfolding previous_stars
stars_of s = previous_stars s +ℤ pos 1

pub record MathQuestion : Type 0 where
  pub left : ℤ
  pub right : ℤ
  pub options : List ℤ

-- `MathQuestion.Result`.
unfoldable pub result_of : MathQuestion → String → ℤ
result_of q op =
    if str_eq op "+"
    then wrap64 (q.left +ℤ q.right)
    else if str_eq op "-"
    then wrap64 (q.left -ℤ q.right)
    else if str_eq op "*"
    then wrap64 (q.left *ℤ q.right)
    else if str_eq op ":" && not (eq_ℤ q.right (pos 0))
    then wrap64 (q.left /ℤ q.right)
    else pos 0
