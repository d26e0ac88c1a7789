-- ===== src/Math/Grading.antt =====
-- Grading against the expected values of `Work` (backend/internal/domain/math.go).
use family_quest.Base.{
  ◌≡◌, ◌↔◌, refl, Bool, true, false, ◌&&◌, ◌||◌, List, [], ◌∷◌, ◌++◌, String, ℤ, pos, negsuc, le_ℤ,
  eq_ℤ_iff, str_eq, eq_iff, eq_refl, length, get_elem?, get_elem?-some, Option, none, some, arith,
}
use family_quest.Domain.Dates.{Time, family_date}
use family_quest.Math.Settings.{MathSettings, MathQuestion}
use family_quest.Math.Work.{Line, Values, lookup, insert, expected_from, work, work_lines}
use family_quest.Math.Session.{
  MathSession, check_value, check_values, grade, record_answer, new_answer, submit, reward_stars,
}

-- The range in which `Submit` accepts a value.
abbrev pub accepted : ℤ → Bool
accepted v = le_ℤ (negsuc 999_999) v && le_ℤ v (pos 1_000_000)

-- The values hold every expected one, and each is in the accepted range.
abbrev pub Agrees : Values → Values → Type 0
Agrees values [] = Unit
Agrees values ((k, want) ∷ expected) =
    (lookup k values ≡ some want) × (accepted want ≡ true) × Agrees values expected

pub check_value-true :
    (want : ℤ) (o : Option ℤ)
    → (check_value want o ≡ some true) ↔ ((o ≡ some want) × (accepted want ≡ true))
unfolding check_value
check_value-true want none = (λ h. cc, λ h. cc h.0)
check_value-true want (some v) =
    (λ h. ground (arith, eq_ℤ_iff v want), λ h. ground (arith, h.0, h.1, eq_ℤ_iff v want))

-- An answer is right exactly if it has each expected value, in the accepted range.
pub check_values-true :
    (values expected : Values) → (check_values values expected ≡ some true) ↔ Agrees values expected
unfolding check_values
check_values-true values [] = (λ h. tt, λ h. refl)
check_values-true values ((k, want) ∷ expected) = (
  λ h.
      ground
        (arith, (check_value-true want (lookup k values)).0, (check_values-true values expected).0),
  λ h.
      ground
        (arith, (check_value-true want (lookup k values)).1, (check_values-true values expected).1),
)

-- A key is in a map at most once.
abbrev pub has_key : String → Values → Bool
has_key k [] = false
has_key k ((j, v) ∷ m) = str_eq j k || has_key k m

abbrev pub IsUnique : Values → Type 0
IsUnique [] = Unit
IsUnique ((j, v) ∷ m) = (has_key j m ≡ false) × IsUnique m

has_key-insert :
    (i k : String) (v : ℤ) (m : Values) → has_key i (insert k v m) ≡ (str_eq k i || has_key i m)
unfolding insert
has_key-insert i k v [] = refl
has_key-insert i k v ((j, w) ∷ m) = ground (arith, eq_iff j k, has_key-insert i k v m)

insert-IsUnique : (k : String) (v : ℤ) (m : Values) → IsUnique m → IsUnique (insert k v m)
unfolding insert
insert-IsUnique k v [] u = (refl, tt)
insert-IsUnique k v ((j, w) ∷ m) u =
    ground (arith, eq_iff j k, eq_iff k j, has_key-insert j k v m, insert-IsUnique k v m)

expected_from-IsUnique : (m : Values) (ls : List Line) → IsUnique m → IsUnique (expected_from m ls)
unfolding expected_from
expected_from-IsUnique m [] u = u
expected_from-IsUnique m (l ∷ ls) u =
    expected_from-IsUnique (insert l.field.key l.expected m) ls
      (insert-IsUnique l.field.key l.expected m u)

pub work-IsUnique : (q : MathQuestion) (s : MathSettings) → IsUnique (work q s).1
unfolding work
work-IsUnique q s = expected_from-IsUnique [] (work_lines q s) tt

-- Every value of a map is in the accepted range.
abbrev pub all_accepted : Values → Bool
all_accepted [] = true
all_accepted ((k, v) ∷ m) = accepted v && all_accepted m

Agrees-cons :
    (j : String) (v : ℤ) (m part : Values)
    → has_key j part ≡ false
    → Agrees m part
    → Agrees ((j, v) ∷ m) part
unfolding lookup
Agrees-cons j v m [] h a = tt
Agrees-cons j v m ((k, w) ∷ part) h a =
    ground (arith, eq_iff j k, eq_iff k j, Agrees-cons j v m part)

Agrees-refl : (m : Values) → IsUnique m → all_accepted m ≡ true → Agrees m m
unfolding lookup
Agrees-refl [] u h = tt
Agrees-refl ((j, v) ∷ m) u h =
    (rw (eq_refl j), ground arith, Agrees-cons j v m m u.0 (Agrees-refl m u.1 (ground arith)))

grade-expected :
    (s : MathSession) (q : MathQuestion)
    → all_accepted (work q s.settings).1 ≡ true
    → grade s.settings (work q s.settings).1 (some q) ≡ some true
unfolding grade
grade-expected s q h =
    let m = (work q s.settings).1 in
    let right = (check_values-true m m).1 (Agrees-refl m (work-IsUnique q s.settings) h) in
    ground (arith, right)

-- Sending the expected values of the next question to a session that is open is accepted, is a
-- right answer, and earns the stars of the session's settings and reward version, where every
-- expected value is in the accepted range.
pub submit_expected :
    (s : MathSession) (q : MathQuestion) (now : Time)
    → s.closed ≡ false
    → get_elem? s.questions (length s.answers) ≡ some q
    → all_accepted (work q s.settings).1 ≡ true
    → submit s (pos (length s.answers)) (work q s.settings).1 now ≡ (
      record s {
        answers =
            s.answers
            ++ record {
              index = pos (length s.answers);
              values = (work q s.settings).1;
              correct = true;
              stars = reward_stars s;
              date = family_date now;
            }
              ∷ [];
      },
      none,
    )
unfolding submit record_answer new_answer
submit_expected s q now open_session next h =
    ground (arith, get_elem?-some s.questions (length s.answers) q next, grade-expected s q h)
