-- ===== src/Math/Answers.antt =====
-- What `MathSession.Submit` does (backend/internal/domain/math.go).
use family_quest.Base.{
  ℕ, ◌≤◌, ◌<◌, ◌≡◌, refl, subst, inl, inr, Bool, true, false, [], ◌∷◌, ◌++◌, ℤ, pos, lt_ℤ, le_ℤ,
  eq_ℤ, eq_ℤ_iff, pos_part, length, get_elem?, Error, invalid_input, conflict, Option, none, some,
  arith, Bool-cases, not, if◌then◌else◌, ◌||◌,
}
use family_quest.Domain.Dates.{Time}
use family_quest.Math.Work.{Values}
use family_quest.Math.Session.{MathSession, new_answer, grade, record_answer, submit}

-- The session and the error that come back, and why.
pub data Outcome (s : MathSession) (i : ℤ) (values : Values) (now : Time)
    : MathSession × Option Error → Type 0 where
  rejected : (x : Error) → Outcome s i values now (s, some x)
  retried : lt_ℤ i (pos (length s.answers)) ≡ true → Outcome s i values now (s, none)
  answered :
      s.closed ≡ false
      → i ≡ pos (length s.answers)
      → length s.answers < length s.questions
      → (right : Bool)
      → grade s.settings values (get_elem? s.questions (length s.answers)) ≡ some right
      → Outcome s i values now
          (record s { answers = s.answers ++ new_answer s i values right now ∷ [] }, none)

module _ (s : MathSession) (i : ℤ) (values : Values) (now : Time) where
  record_answer-Outcome :
      (o : Option Bool)
      → s.closed ≡ false
      → i ≡ pos (length s.answers)
      → length s.answers < length s.questions
      → grade s.settings values (get_elem? s.questions (pos_part i)) ≡ o
      → Outcome s i values now (record_answer s i values now o)
  unfolding record_answer
  record_answer-Outcome none c e l g = rejected invalid_input
  record_answer-Outcome (some right) c e l g = answered c e l right (
      subst (λ (j : ℤ). grade s.settings values (get_elem? s.questions (pos_part j)) ≡ some right) e
        g)

  open_question :
      lt_ℤ i (pos 0) || le_ℤ (pos (length s.questions)) i ≡ false
      → lt_ℤ i (pos (length s.answers)) ≡ false
      → eq_ℤ i (pos (length s.answers)) ≡ true
      → (i ≡ pos (length s.answers)) × (length s.answers < length s.questions)
  open_question h k e = ground (arith, eq_ℤ_iff i (pos (length s.answers)))

  closed-Outcome :
      (closed : Bool)
      → s.closed ≡ closed
      → lt_ℤ i (pos 0) || le_ℤ (pos (length s.questions)) i ≡ false
      → lt_ℤ i (pos (length s.answers)) ≡ false
      → Outcome s i values now (
          if closed
          then (s, some conflict)
          else if not (eq_ℤ i (pos (length s.answers)))
          then (s, some conflict)
          else record_answer s i values now
              (grade s.settings values (get_elem? s.questions (pos_part i))))
  closed-Outcome true c h k = rejected conflict
  closed-Outcome false c h k = elim (Bool-cases (eq_ℤ i (pos (length s.answers)))) [
    | inr ahead ↦ rw ahead (rejected conflict)
    | inl next ↦
        let (at_end, room) = open_question h k next in
        rw next (
          record_answer-Outcome (grade s.settings values (get_elem? s.questions (pos_part i))) c
            at_end room refl)
  ]

  -- A submission is rejected and changes nothing, repeats an answered question and changes nothing,
  -- or appends one answer: to the next question of a session that is not closed, graded by it.
  pub submit-Outcome : Outcome s i values now (submit s i values now)
  unfolding submit
  submit-Outcome = elim (Bool-cases (lt_ℤ i (pos 0) || le_ℤ (pos (length s.questions)) i)) [
    | inl outside ↦ rw outside (rejected invalid_input)
    | inr inside ↦ elim (Bool-cases (lt_ℤ i (pos (length s.answers)))) [
      | inl again ↦ rw (inside, again) (retried again)
      | inr new ↦ rw (inside, new) (closed-Outcome s.closed refl inside new)
    ]
  ]

-- Once a question is answered, in a session with no more answers than questions, sending any answer
-- to it again succeeds and changes nothing: the saved answer stands, also after the session is
-- closed.
pub submit_retry :
    (s : MathSession) (i : ℕ) (values : Values) (now : Time)
    → i < length s.answers
    → length s.answers ≤ length s.questions
    → submit s (pos i) values now ≡ (s, none)
unfolding submit
submit_retry s i values now h le = ground arith
