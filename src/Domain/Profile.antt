-- ===== src/Domain/Profile.antt =====
-- The learning profile and the policy that follows from it (backend/internal/domain/profile.go).
use family_quest.Base.{
  ℕ, ◌≤◌, inl, inr, Bool-cases, ◌+◌, ◌/◌, ◌≡◌, refl, Bool, true, false, not, ◌&&◌, ◌||◌, [], ◌∷◌,
  String, ℤ, pos, le_ℤ, ◌-ℤ◌, str_eq, one_of, str_lt, Result, ok, invalid_input, fail_if, ◌>>◌,
  Option, none, some, ltb, leb, ◌==◌, arith, if◌then◌else◌,
}
use family_quest.Domain.Dates.{Time, Date, parse_date, format_date, family_date, date_of_day}

pub record LearningProfile : Type 0 where
  pub birth_date : String
  pub math_level : String
  pub reading_level : String

pub record LearningPolicy : Type 0 where
  pub age : Option ℤ
  pub math_level : String
  pub reading_level : String
  pub version : ℤ

-- A birth date lies between 1900 and today.
unfoldable pub valid_birth : Option Date → Time → Bool
valid_birth none now = false
valid_birth (some d) now = not (str_lt (family_date now) (format_date d)) && leb 1900 d.year

unfoldable pub validate_profile : LearningProfile → Time → Result (Unit {0})
validate_profile p now = do
  fail_if (not (str_eq p.birth_date "") && not (valid_birth (parse_date p.birth_date) now))
      invalid_input
  fail_if
      (not (one_of p.math_level ("" ∷ "easy" ∷ "medium" ∷ "hard" ∷ "columnar" ∷ []))
        || not (one_of p.reading_level ("" ∷ "phrases" ∷ "sentences" ∷ "advanced" ∷ [])))
      invalid_input

-- The day in Minsk.
unfoldable pub today : Time → Date
unfolding date_of_day
today now = date_of_day ((now / 1_000_000_000 + 10800) / 86_400)

unfoldable pub age_on : Date → Date → ℤ
age_on n d =
    let years = pos n.year -ℤ pos d.year in
    if ltb n.month d.month || ((n.month == d.month) && ltb n.day d.day)
    then years -ℤ pos 1
    else years

unfoldable pub age_of : Option Date → Time → Option ℤ
age_of none now = none
age_of (some d) now = some (age_on (today now) d)

unfoldable pub math_level_at : Option ℤ → String
math_level_at none = "easy"
math_level_at (some age) =
    if le_ℤ (pos 10) age then "hard" else if le_ℤ (pos 8) age then "medium" else "easy"

unfoldable pub reading_level_at : Option ℤ → String
reading_level_at none = "phrases"
reading_level_at (some age) =
    if le_ℤ (pos 10) age then "advanced" else if le_ℤ (pos 8) age then "sentences" else "phrases"

-- `LearningProfile.Policy`: by age, unless a level is set.
unfoldable pub policy : LearningProfile → Time → LearningPolicy
unfolding age_of
policy p now =
    let age = age_of (parse_date p.birth_date) now in
    record {
      age = age;
      math_level = if not (str_eq p.math_level "") then p.math_level else math_level_at age;
      reading_level =
          if not (str_eq p.reading_level "") then p.reading_level else reading_level_at age;
      version = pos 1;
    }

-- The map of levels; a level that is not in it counts 0.
unfoldable pub math_rank : String → ℕ
math_rank level =
    if str_eq level "easy"
    then 1
    else if str_eq level "medium"
    then 2
    else if str_eq level "hard"
    then 3
    else if str_eq level "columnar"
    then 3
    else 0

unfoldable pub reading_rank : String → ℕ
reading_rank level =
    if str_eq level "phrases"
    then 1
    else if str_eq level "sentences"
    then 2
    else if str_eq level "advanced"
    then 3
    else 0

-- `LearningPolicy.AllowsMath`, of the settings' level.
unfoldable pub allows_math : LearningPolicy → String → Bool
allows_math p level =
    if str_eq level "columnar"
    then str_eq p.math_level "columnar"
    else ltb 0 (math_rank level) && leb (math_rank level) (math_rank p.math_level)

unfoldable pub allows_reading : LearningPolicy → String → Bool
allows_reading p level =
    ltb 0 (reading_rank level) && leb (reading_rank level) (reading_rank p.reading_level)

-- The ranks of the levels that the policy can name.
math_level_at_rank : (age : Option ℤ) → 1 ≤ math_rank (math_level_at age)
unfolding math_rank math_level_at
math_level_at_rank none = omega arith
math_level_at_rank (some age) = elim (Bool-cases (le_ℤ (pos 10) age)) [
  | inl ten ↦ rw ten (omega arith)
  | inr under_ten ↦ elim (Bool-cases (le_ℤ (pos 8) age)) [
    | inl eight ↦ rw (under_ten, eight) (omega arith)
    | inr under_eight ↦ rw (under_ten, under_eight) (omega arith)
  ]
]

math_level_set_rank :
    (level : String)
    → one_of level ("" ∷ "easy" ∷ "medium" ∷ "hard" ∷ "columnar" ∷ []) ≡ true
    → str_eq level "" ≡ false
    → 1 ≤ math_rank level
unfolding math_rank
math_level_set_rank level h k = ground arith

reading_level_at_rank : (age : Option ℤ) → 1 ≤ reading_rank (reading_level_at age)
unfolding reading_rank reading_level_at
reading_level_at_rank none = omega arith
reading_level_at_rank (some age) = elim (Bool-cases (le_ℤ (pos 10) age)) [
  | inl ten ↦ rw ten (omega arith)
  | inr under_ten ↦ elim (Bool-cases (le_ℤ (pos 8) age)) [
    | inl eight ↦ rw (under_ten, eight) (omega arith)
    | inr under_eight ↦ rw (under_ten, under_eight) (omega arith)
  ]
]

reading_level_set_rank :
    (level : String)
    → one_of level ("" ∷ "phrases" ∷ "sentences" ∷ "advanced" ∷ []) ≡ true
    → str_eq level "" ≡ false
    → 1 ≤ reading_rank level
unfolding reading_rank
reading_level_set_rank level h k = ground arith

easy_ranks : (math_rank "easy" ≡ 1) × (reading_rank "phrases" ≡ 1)
unfolding math_rank reading_rank
easy_ranks = (refl, refl)

module _ (p : LearningProfile) (now : Time) where
  math_policy_rank :
      one_of p.math_level ("" ∷ "easy" ∷ "medium" ∷ "hard" ∷ "columnar" ∷ []) ≡ true
      → 1 ≤ math_rank (policy p now).math_level
  unfolding policy
  math_policy_rank h = elim (Bool-cases (str_eq p.math_level "")) [
    | inl unset ↦ rw unset (math_level_at_rank (age_of (parse_date p.birth_date) now))
    | inr chosen ↦ rw chosen (math_level_set_rank p.math_level h chosen)
  ]

  reading_policy_rank :
      one_of p.reading_level ("" ∷ "phrases" ∷ "sentences" ∷ "advanced" ∷ []) ≡ true
      → 1 ≤ reading_rank (policy p now).reading_level
  unfolding policy
  reading_policy_rank h = elim (Bool-cases (str_eq p.reading_level "")) [
    | inl unset ↦ rw unset (reading_level_at_rank (age_of (parse_date p.birth_date) now))
    | inr chosen ↦ rw chosen (reading_level_set_rank p.reading_level h chosen)
  ]

  -- Whatever valid profile a child has, whenever it is read, the policy lets the child start with
  -- easy arithmetic and with phrases.
  pub policy_allows_easy :
      validate_profile p now ≡ ok tt
      → (allows_math (policy p now) "easy" ≡ true)
        × (allows_reading (policy p now) "phrases" ≡ true)
  unfolding validate_profile allows_math allows_reading
  policy_allows_easy h = (
    ground (arith, math_policy_rank, easy_ranks),
    ground (arith, reading_policy_rank, easy_ranks),
  )
