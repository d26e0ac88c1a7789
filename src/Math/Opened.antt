-- ===== src/Math/Opened.antt =====
-- New sessions and `MathSession.Validate` (`NewMathSession`, backend/internal/domain/math.go).
use Prim.Native.String.{len}
use native.Mathlib.Nat.{div-le_self}
use family_quest.Base.{
  ℕ, zero, suc, ◌+◌, ◌*◌, ◌/◌, ◌≤◌, ◌≡◌, refl, ap, ◌∙◌, true, false, not, ◌&&◌, [], String, ℤ, pos,
  ◌+ℤ◌, ◌-ℤ◌, ◌*ℤ◌, ◌/ℤ◌, le_ℤ, wrap64, pos_part, all, codes, length, str_eq, arith, Bool-cases,
  inl, inr, ok, eq_ℤ, eq_ℤ_iff, wrap64-pos, ◌⊎◌,
}
use family_quest.Domain.Dates.{Time, is_zero_time}
use family_quest.Math.Settings.{
  MathSettings, MathQuestion, valid_settings, question_count, result_of,
}
use family_quest.Math.Validate.{
  valid_operands, valid_options, valid_question, valid_frame, validate_session, hex_digit,
}
use family_quest.Math.Replay.{answers_fit}
use family_quest.Math.Kept.{IsSound-validate_session}
use family_quest.Math.Draws.{
  Random, draw_operands, with_options, draw_question, draw_questions, new_math_session,
}
use family_quest.Math.Drawn.{IsBelow, Fits, operands-Fits, small_product}
use family_quest.Math.Choice.{IsFair, Shuffles, IsUsual, shuffled-options}

abbrev asked : ℕ → ℕ → MathQuestion
asked a b = record { left = pos a; right = pos b; options = [] }

positive-IsUsual : (s : MathSettings) (v : ℕ) → v ≤ 10_000_000 → IsUsual s (wrap64 (pos v))
positive-IsUsual s v h =
    rw (wrap64-pos v (omega arith)) (omega arith, omega arith, inr (omega arith))

sum-IsUsual :
    (s : MathSettings) (a b : ℕ) → a ≤ 2000 → b ≤ 1000 → IsUsual s (wrap64 (pos a +ℤ pos b))
unfolding ◌+ℤ◌
sum-IsUsual s a b h k =
    let sum : pos a +ℤ pos b ≡ pos (a + b) = ground arith in
    rw sum (positive-IsUsual s (a + b) (omega arith))

difference-IsUsual :
    (s : MathSettings) (a b : ℕ)
    → a ≤ 2000
    → b ≤ 1000
    → (s.allow_negative ≡ true) ⊎ (b ≤ a)
    → IsUsual s (wrap64 (pos a -ℤ pos b))
unfolding wrap64 ◌-ℤ◌
difference-IsUsual s a b h k (inl wanted) = (ground arith, ground arith, inl wanted)
difference-IsUsual s a b h k (inr order) = (ground arith, ground arith, inr (ground arith))

-- Operands that fit are in the order that the settings want.
Fits-order :
    (s : MathSettings) (a b n : ℕ)
    → Fits s (a, b, n)
    → str_eq s.operation "-" ≡ true
    → (s.allow_negative ≡ true) ⊎ (b ≤ a)
unfolding valid_operands
Fits-order s a b n h minus = elim (Bool-cases (s.allow_negative)) [
  | inl wanted ↦ inl wanted
  | inr unwanted ↦ inr (ground arith)
]

-- Operands that fit have a usual answer.
result-IsUsual :
    (s : MathSettings) (a b n : ℕ)
    → Fits s (a, b, n)
    → IsUsual s (result_of (asked a b) s.operation)
unfolding valid_operands result_of ◌*ℤ◌ ◌/ℤ◌
result-IsUsual s a b n h =
    let left : a ≤ 2000 = ground arith in
    let right : b ≤ 1000 = ground arith in
    let product = small_product a b 2000 1000 left right in
    let quotient : a / b ≤ a = div-le_self a b in
    elim (Bool-cases (str_eq s.operation "+")) [
      | inl plus ↦ rw plus (sum-IsUsual s a b left right)
      | inr o ↦ elim (Bool-cases (str_eq s.operation "-")) [
        | inl minus ↦
            rw (o, minus) (difference-IsUsual s a b left right (Fits-order s a b n h minus))
        | inr p ↦ elim (Bool-cases (str_eq s.operation "*")) [
          | inl times ↦ rw (o, p, times) (positive-IsUsual s (a * b) (omega arith))
          | inr q ↦ elim (Bool-cases (str_eq s.operation ":" && not (eq_ℤ (pos b) (pos 0)))) [
            | inl over ↦ rw (o, p, q, over) (positive-IsUsual s (a / b) (omega arith))
            | inr nothing ↦ rw (o, p, q, nothing) (omega arith, omega arith, inr (omega arith))
          ]
        ]
      ]
    ]

module _ (r : Random) (s : MathSettings) (rounds : ℕ) (below : IsBelow r) (fair : IsFair r rounds)
    (shuffles : Shuffles r) where
  with_options-valid :
      (a b m n : ℕ)
      → Fits s (a, b, m)
      → valid_question s (with_options r s rounds n (asked a b)).0 ≡ true
  unfolding with_options valid_question valid_options valid_operands result_of
  with_options-valid a b m n h = elim (Bool-cases (str_eq s.answer_mode "choice")) [
    | inr input ↦ rw input (ground (arith, input))
    | inl choice ↦
        let answer = result_of (asked a b) s.operation in
        let (size, has, different) =
          shuffled-options r s answer (result-IsUsual s a b m h) rounds n fair shuffles in
        rw choice (ground (arith, choice, size, has, different))
  ]

  draw_question-valid : (n : ℕ) → valid_question s (draw_question r s rounds n).0 ≡ true
  unfolding draw_question
  draw_question-valid n =
      let (a, b, next) = draw_operands r s n in
      with_options-valid a b next next (operands-Fits r s n below)

  draw_questions-valid :
      (count n : ℕ) → all (valid_question s) (draw_questions r s rounds count n) ≡ true
  unfolding draw_questions
  draw_questions-valid zero n = refl
  draw_questions-valid (suc count) n =
      rw (draw_question-valid n) (draw_questions-valid count (draw_question r s rounds n).1)

length-draw_questions :
    (r : Random) (s : MathSettings) (rounds count n : ℕ)
    → length (draw_questions r s rounds count n) ≡ count
unfolding draw_questions
length-draw_questions r s rounds zero n = refl
length-draw_questions r s rounds (suc count) n =
    ap suc (length-draw_questions r s rounds count (draw_question r s rounds n).1)

question_count-pos : (s : MathSettings) → pos (pos_part (question_count s)) ≡ question_count s
unfolding question_count
question_count-pos s = ground arith

-- A new session passes Validate, with any settings that are valid, an identifier of 32 hexadecimal
-- digits and a positive participant, at any time but Go's zero time: where draws lie below their
-- bound, every value below 17 comes within the given number of draws, so that the loops over the
-- options end, and shuffling keeps the elements.
pub new_math_session-validate :
    (r : Random) (rounds : ℕ) (id : String) (participant : ℤ) (s : MathSettings) (now : Time)
    → IsBelow r
    → IsFair r rounds
    → Shuffles r
    → valid_settings s ≡ true
    → len id ≡ 32
    → all hex_digit (codes id) ≡ true
    → le_ℤ participant (pos 0) ≡ false
    → is_zero_time now ≡ false
    → validate_session (new_math_session r rounds id participant s now) ≡ ok tt
unfolding new_math_session valid_frame answers_fit
new_math_session-validate r rounds id participant s now below fair shuffles settings size hex known
      later =
    let count = pos_part (question_count s) in
    let long = length-draw_questions r s rounds count 0 in
    let asked_for : eq_ℤ (pos (length (draw_questions r s rounds count 0))) (question_count s)
        ≡ true =
      (eq_ℤ_iff (pos (length (draw_questions r s rounds count 0))) (question_count s)).1
        (ap pos long ∙ question_count-pos s) in
    let good = draw_questions-valid r s rounds below fair shuffles count 0 in
    IsSound-validate_session (new_math_session r rounds id participant s now) (record {
      room = omega arith;
      frame = ground (arith, settings, size, hex, known, later, asked_for, good);
      answers_sound = refl;
    })
