-- ===== src/Examples/Sessions.antt =====
-- The theorems on arithmetic sessions at concrete sessions (backend/internal/domain/math.go and
-- backend/internal/store/learning.go).
use family_quest.Base.{
  subst, ap, String, get_elem?, Option, Error, ◌≡◌, ◌↔◌, refl, true, [], ◌∷◌, pos, ◌≤ℤ◌, ◌+ℤ◌,
  wrap64, ok, none, some, arith,
}
use family_quest.Domain.Dates.{family_date}
use family_quest.Math.Settings.{valid_settings, question_count, result_of, max_int, stars_of}
use family_quest.Math.Work.{
  lookup, work, work_lines, answer_line, insert, expected_from, fields_from,
}
use family_quest.Math.Session.{
  MathAnswer, MathSession, submit, award_answer, reward_stars, capped_stars, daily_limit,
  check_values, grade, record_answer, version_stars, new_answer,
}
use family_quest.Math.Validate.{
  validate_session, valid_frame, valid_question, valid_operands, valid_options, replay,
}
use family_quest.Math.Work.{product_lines}
use family_quest.Math.Rounds.{product_lines-enough}
use family_quest.Math.Stars.{Within, reward_stars_bounds, capped_stars_bounds}
use family_quest.Math.Answers.{Outcome, submit-Outcome}
use family_quest.Math.Grading.{all_accepted, submit_expected}
use family_quest.Math.Verdict.{submit_verdict}
use family_quest.Math.Repeats.{Holds, here, awarded, finished, submit_repeated}
use family_quest.Math.Kept.{submit-validate, award_answer-validate}
use family_quest.Store.MathSessions.{answer_math}
use family_quest.Store.Db.{earned_stars}
use family_quest.Store.Ledger.{IsBudgeted}
use family_quest.Store.Budget.{answer_math-IsBudgeted}
use family_quest.Examples.Data.{
  noon, evening, session, question, settings, right_answer, database, noon_valid,
}

validate_session-empty : validate_session (session []) ≡ ok tt
unfolding validate_session valid_frame valid_settings question_count valid_question valid_operands
    valid_options replay
validate_session-empty = refl

submit-validate_example :
    validate_session (submit (session []) (pos 0) (("answer", pos 5) ∷ []) noon).0 ≡ ok tt
submit-validate_example =
    submit-validate (session []) (pos 0) (("answer", pos 5) ∷ []) noon noon_valid
      validate_session-empty

question_accepted : all_accepted (work question settings).1 ≡ true
unfolding work work_lines answer_line insert expected_from fields_from result_of wrap64 ◌+ℤ◌
question_accepted = refl

-- The sum is checked, right, and earns two stars.
right_submitted :
    submit (session []) (pos 0) (("answer", pos 5) ∷ []) noon ≡ (session (right_answer ∷ []), none)
unfolding submit record_answer grade check_values work work_lines answer_line insert expected_from
    fields_from result_of new_answer reward_stars version_stars stars_of family_date wrap64 ◌+ℤ◌
right_submitted = refl

validate_session-answered : validate_session (session (right_answer ∷ [])) ≡ ok tt
validate_session-answered =
    subst (λ (r : MathSession × Option Error). validate_session r.0 ≡ ok tt) right_submitted
      (submit-validate (session []) (pos 0) (("answer", pos 5) ∷ []) noon noon_valid
        validate_session-empty)

award_answer-validate_example :
    validate_session (award_answer (session (right_answer ∷ [])) (pos 0) (pos 39)).0 ≡ ok tt
award_answer-validate_example =
    award_answer-validate (session (right_answer ∷ [])) (pos 0) (pos 39) validate_session-answered

submit_expected_example : submit (session []) (pos 0) (work question settings).1 noon ≡ (
  record (session []) {
    answers =
        record {
          index = pos 0;
          values = (work question settings).1;
          correct = true;
          stars = reward_stars (session []);
          date = family_date noon;
        }
        ∷ [];
  },
  none,
)
submit_expected_example = submit_expected (session []) question noon refl refl question_accepted

submit-Outcome_example :
    Outcome
      (session [])
      (pos 0)
      (("answer", pos 5) ∷ [])
      noon
      (submit (session []) (pos 0) (("answer", pos 5) ∷ []) noon)
submit-Outcome_example = submit-Outcome (session []) (pos 0) (("answer", pos 5) ∷ []) noon

right_recorded :
    get_elem? (submit (session []) (pos 0) (("answer", pos 5) ∷ []) noon).0.answers 0
    ≡ some right_answer
right_recorded = ap (λ (r : MathSession × Option Error). get_elem? r.0.answers 0) right_submitted

submit_verdict_example :
    (right_answer.correct ≡ true)
    ↔ ((k : String) → lookup k (("answer", pos 5) ∷ []) ≡ lookup k (work question settings).1)
submit_verdict_example =
    submit_verdict (session []) question (pos 0) (("answer", pos 5) ∷ []) noon right_answer refl
      right_recorded

right_accepted : (submit (session []) (pos 0) (("answer", pos 5) ∷ []) noon).1 ≡ none
right_accepted = ap (λ (r : MathSession × Option Error). r.1) right_submitted

-- The budget of a day with one star left, and the end of the session.
abbrev finished_session : MathSession → MathSession
finished_session s = record ((award_answer s (pos 0) (pos 39)).0) { closed = true }

submit_repeated_example :
    (a : MathAnswer) × (get_elem?
        (submit (session []) (pos 0) (("answer", pos 5) ∷ []) noon).0.answers
        0
      ≡ some a)
    × Holds (finished_session (submit (session []) (pos 0) (("answer", pos 5) ∷ []) noon).0) 0 a
    × (submit
          (finished_session (submit (session []) (pos 0) (("answer", pos 5) ∷ []) noon).0)
          (pos 0)
          (("answer", pos 9) ∷ [])
          evening
        ≡ (finished_session (submit (session []) (pos 0) (("answer", pos 5) ∷ []) noon).0, none))
submit_repeated_example =
    submit_repeated (session [])
      (finished_session (submit (session []) (pos 0) (("answer", pos 5) ∷ []) noon).0) 0
      (("answer", pos 5) ∷ []) (("answer", pos 9) ∷ []) noon evening (omega arith) right_accepted
      (finished (awarded here (pos 0) (pos 39)))

reward_stars_bounds_example : Within (pos 1) (pos 6) (reward_stars (session []))
reward_stars_bounds_example = reward_stars_bounds (session [])

capped_stars_bounds_example :
    (pos 0 ≤ℤ capped_stars (session []) (pos 5) (pos 38))
    × (capped_stars (session []) (pos 5) (pos 38) ≤ℤ pos 5)
    × (pos 38 +ℤ capped_stars (session []) (pos 5) (pos 38)
        ≤ℤ max_int (pos 38) (daily_limit (session [])))
capped_stars_bounds_example =
    capped_stars_bounds (session []) (pos 5) (pos 38) (omega arith) (omega arith) (omega arith) refl

IsBudgeted-math : IsBudgeted "math" 40 []
unfolding earned_stars
IsBudgeted-math = record { gains = refl; within = λ who date. omega arith }

answer_math-IsBudgeted_example :
    IsBudgeted "math" 40
      (answer_math database
        (pos 2)
        "0123456789abcdef0123456789abcdef"
        (pos 0)
        (("answer", pos 5) ∷ [])
        noon).0.activity_rewards
answer_math-IsBudgeted_example =
    answer_math-IsBudgeted database (pos 2) "0123456789abcdef0123456789abcdef" (pos 0)
      (("answer", pos 5) ∷ []) noon IsBudgeted-math refl

product_lines-enough_example :
    product_lines 25 (pos 99) 0 (pos 24) ≡ product_lines 1000 (pos 99) 0 (pos 24)
product_lines-enough_example =
    product_lines-enough 25 1000 (pos 99) 0 (pos 24) (omega arith) (omega arith)
