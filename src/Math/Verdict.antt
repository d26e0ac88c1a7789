-- ===== src/Math/Verdict.antt =====
-- When an answer counts as right (`MathSession.Submit`, backend/internal/domain/math.go).
use family_quest.Base.{
  suc, ◌≤◌, ◌≡◌, ◌↔◌, refl, sym, ap, ◌∙◌, inl, inr, Bool, true, false, not, ◌&&◌, [], ◌∷◌, String,
  ℤ, str_eq, eq_iff, eq_refl, eq_ℤ_refl, length, get_elem?, get_elem?-some, get_elem?-append_end,
  Error, Option, none, some, arith, Bool-cases, if◌then◌else◌,
}
use family_quest.Domain.Dates.{Time}
use family_quest.Math.Settings.{MathQuestion}
use family_quest.Math.Work.{Values, lookup, work}
use family_quest.Math.Session.{
  MathAnswer, MathSession, check_value, check_values, both, grade, new_answer, submit,
}
use family_quest.Math.Answers.{Outcome, rejected, retried, answered, submit-Outcome}
use family_quest.Math.Grading.{Agrees, check_values-true, has_key, IsUnique, work-IsUnique}

-- The values with a key left out.
without : String → Values → Values
without k [] = []
without k ((j, v) ∷ m) = let rest = without k m in if str_eq k j then rest else (j, v) ∷ rest

has_key-without :
    (i k : String) (m : Values) → has_key i (without k m) ≡ (not (str_eq k i) && has_key i m)
unfolding without
has_key-without i k [] = ground arith
has_key-without i k ((j, v) ∷ m) = ground (arith, eq_iff k j, eq_iff j i, has_key-without i k m)

length-without_le : (k : String) (m : Values) → length (without k m) ≤ length m
unfolding without
length-without_le k [] = omega arith
length-without_le k ((j, v) ∷ m) = ground (arith, length-without_le k m)

length-without :
    (k : String) (m : Values) → has_key k m ≡ true → suc (length (without k m)) ≤ length m
unfolding without
length-without k [] h = cc
length-without k ((j, v) ∷ m) h =
    ground (arith, eq_iff k j, eq_iff j k, length-without k m, length-without_le k m)

-- Every key of the first is one of the second.
abbrev keys_in : Values → Values → Bool
keys_in [] values = true
keys_in ((k, v) ∷ part) values = has_key k values && keys_in part values

keys_in-without :
    (k : String) (part values : Values)
    → has_key k part ≡ false
    → keys_in part values ≡ true
    → keys_in part (without k values) ≡ true
keys_in-without k [] values h c = refl
keys_in-without k ((j, v) ∷ part) values h c =
    ground
      (arith, eq_iff k j, eq_iff j k, has_key-without j k values, keys_in-without k part values)

-- Values that are no more than the distinct keys among them have no other key.
no_other_key :
    (k : String) (part values : Values)
    → IsUnique part
    → keys_in part values ≡ true
    → length values ≤ length part
    → has_key k part ≡ false
    → has_key k values ≡ false
no_other_key k [] [] u c l h = refl
no_other_key k [] (x ∷ values) u c l h = absurd (omega arith)
no_other_key k ((j, v) ∷ part) values u c l h =
    let inside : has_key j values ≡ true = ground arith in
    let shorter = length-without j values inside in
    let rest =
      no_other_key k part (without j values) u.1 (keys_in-without j part values u.0 (ground arith))
        (omega arith) (ground arith) in
    ground (arith, has_key-without k j values, rest)

lookup-has_key : (k : String) (v : ℤ) (m : Values) → lookup k m ≡ some v → has_key k m ≡ true
unfolding lookup
lookup-has_key k v [] h = cc
lookup-has_key k v ((j, w) ∷ m) h = ground (arith, lookup-has_key k v m)

lookup-none : (k : String) (m : Values) → has_key k m ≡ false → lookup k m ≡ none
unfolding lookup
lookup-none k [] h = refl
lookup-none k ((j, w) ∷ m) h = ground (arith, lookup-none k m)

Agrees-keys_in : (values part : Values) → Agrees values part → keys_in part values ≡ true
Agrees-keys_in values [] a = refl
Agrees-keys_in values ((k, want) ∷ part) a =
    ground (arith, lookup-has_key k want values, Agrees-keys_in values part)

Agrees-lookup :
    (k : String) (values part : Values)
    → has_key k part ≡ true
    → Agrees values part
    → lookup k values ≡ lookup k part
unfolding lookup
Agrees-lookup k values [] h a = cc
Agrees-lookup k values ((j, want) ∷ part) h a = elim (Bool-cases (str_eq j k)) [
  | inl here ↦ let same : j ≡ k = (eq_iff j k).0 here in rw (here, ← same) a.0
  | inr later ↦ rw later (Agrees-lookup k values part (rw later at h) a.2)
]

-- An answer that has every expected value, and no more values than that, has the expected ones.
right-lookup :
    (k : String) (values expected : Values)
    → IsUnique expected
    → length values ≡ length expected
    → Agrees values expected
    → lookup k values ≡ lookup k expected
right-lookup k values expected u size a = elim (Bool-cases (has_key k expected)) [
  | inl inside ↦ Agrees-lookup k values expected inside a
  | inr outside ↦
      let missing =
        no_other_key k expected values u (Agrees-keys_in values expected a) (omega arith) outside in
      lookup-none k values missing ∙ sym (lookup-none k expected outside)
]

-- One value that is as expected is right.
check_value-same : (want : ℤ) (b : Bool) → check_value want (some want) ≡ some b → b ≡ true
unfolding check_value
check_value-same want b h = ground (arith, eq_ℤ_refl want)

-- A key with its expected value in the whole answer.
abbrev AllSame : Values → Values → Type 0
AllSame values [] = Unit
AllSame values ((k, want) ∷ part) = (lookup k values ≡ some want) × AllSame values part

both-true :
    (o p : Option Bool) (b : Bool)
    → both o p ≡ some b
    → ((c : Bool) → o ≡ some c → c ≡ true)
    → ((c : Bool) → p ≡ some c → c ≡ true)
    → b ≡ true
both-true none p b h f g = cc
both-true (some c) none b h f g = cc
both-true (some c) (some d) b h f g = ground (arith, f c refl, g d refl)

check_values-same :
    (values part : Values) (b : Bool)
    → AllSame values part
    → check_values values part ≡ some b
    → b ≡ true
unfolding check_values
check_values-same values [] b same h = cc
check_values-same values ((k, want) ∷ part) b same h =
    both-true (check_value want (lookup k values)) (check_values values part) b h
      (λ c e. check_value-same want c (rw same.0 at e))
      (λ c e. check_values-same values part c same.1 e)

AllSame-cons :
    (j : String) (v : ℤ) (m part : Values)
    → has_key j part ≡ false
    → AllSame m part
    → AllSame ((j, v) ∷ m) part
unfolding lookup
AllSame-cons j v m [] h same = tt
AllSame-cons j v m ((k, w) ∷ part) h same =
    ground (arith, eq_iff j k, eq_iff k j, AllSame-cons j v m part)

AllSame-refl : (m : Values) → IsUnique m → AllSame m m
unfolding lookup
AllSame-refl [] u = tt
AllSame-refl ((j, v) ∷ m) u = (rw (eq_refl j), AllSame-cons j v m m u.0 (AllSame-refl m u.1))

AllSame-transfer :
    (values m part : Values)
    → ((k : String) → lookup k values ≡ lookup k m)
    → AllSame m part
    → AllSame values part
AllSame-transfer values m [] same a = tt
AllSame-transfer values m ((k, want) ∷ part) same a =
    (same k ∙ a.0, AllSame-transfer values m part same a.1)

module _ (s : MathSession) (q : MathQuestion) (values : Values) (right : Bool)
    (graded : grade s.settings values (some q) ≡ some right) where
  graded_values :
      (length values ≡ length (work q s.settings).1)
      × (check_values values (work q s.settings).1 ≡ some right)
  unfolding grade
  graded_values = ground arith

  graded-right : right ≡ true → (k : String) → lookup k values ≡ lookup k (work q s.settings).1
  graded-right h k =
      let (size, checked) = graded_values in
      let expected = (work q s.settings).1 in
      right-lookup k values expected (work-IsUnique q s.settings) size
        ((check_values-true values expected).0 (checked ∙ ap some h))

  graded-same : ((k : String) → lookup k values ≡ lookup k (work q s.settings).1) → right ≡ true
  graded-same same =
      let expected = (work q s.settings).1 in
      check_values-same values expected right
        (AllSame-transfer values expected expected same
          (AllSame-refl expected (work-IsUnique q s.settings)))
        graded_values.1

recorded-correct :
    (s : MathSession) (i : ℤ) (values : Values) (right : Bool) (now : Time) (a : MathAnswer)
    → some (new_answer s i values right now) ≡ some a
    → right ≡ a.correct
unfolding new_answer
recorded-correct s i values right now a h = cc

-- What is recorded after the answers that were there.
Outcome-verdict :
    {s : MathSession} {i : ℤ} {values : Values} {now : Time} {r : MathSession × Option Error}
    (a : MathAnswer)
    → Outcome s i values now r
    → get_elem? r.0.answers (length s.answers) ≡ some a
    → grade s.settings values (get_elem? s.questions (length s.answers)) ≡ some a.correct
Outcome-verdict {s} a (rejected x) h =
    absurd (omega (arith, get_elem?-some s.answers (length s.answers) a h))
Outcome-verdict {s} a (retried l) h =
    absurd (omega (arith, get_elem?-some s.answers (length s.answers) a h))
Outcome-verdict {s} {i} {values} {now} a (answered c e room right g) h =
    let new = new_answer s i values right now in
    g
    ∙ ap some
        (recorded-correct s i values right now a (sym (get_elem?-append_end s.answers new) ∙ h))

-- An answer that Submit records for the next question is right exactly if each key has the same value
-- in it as in the expected values of the question, or no value in both.
pub submit_verdict :
    (s : MathSession) (q : MathQuestion) (i : ℤ) (values : Values) (now : Time) (a : MathAnswer)
    → get_elem? s.questions (length s.answers) ≡ some q
    → get_elem? (submit s i values now).0.answers (length s.answers) ≡ some a
    → (a.correct ≡ true) ↔ ((k : String) → lookup k values ≡ lookup k (work q s.settings).1)
submit_verdict s q i values now a next recorded =
    let graded =
      ap (grade s.settings values) (sym next)
      ∙ Outcome-verdict a (submit-Outcome s i values now) recorded in
    (graded-right s q values a.correct graded, graded-same s q values a.correct graded)
