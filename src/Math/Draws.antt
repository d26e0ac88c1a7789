-- ===== src/Math/Draws.antt =====
-- `NewMathSession` (backend/internal/domain/math.go). The draws of math/rand/v2 are a parameter: the
-- n-th call of `IntN` with its bound, and what `Shuffle` makes of a list. The operands are small and
-- never negative, and so natural numbers.
use family_quest.Base.{
  ℕ, zero, suc, ◌+◌, ◌*◌, Bool, false, not, ◌&&◌, ◌||◌, List, [], ◌∷◌, ◌++◌, String, ℤ, pos, ◌+ℤ◌,
  ◌-ℤ◌, wrap64, mem_ℤ, ltb, leb, pos_part, length, str_eq, if◌then◌else◌,
}
use family_quest.Domain.Dates.{Time}
use family_quest.Math.Settings.{MathSettings, MathQuestion, question_count, result_of, max_int}
use family_quest.Math.Session.{MathSession}

pub record Random : Type 0 where
  pub int_n : ℕ → ℕ → ℕ
  pub shuffle : ℕ → List ℤ → List ℤ

abbrev pub top_of : MathSettings → ℕ
top_of s = if str_eq s.level "hard" then 100 else if str_eq s.level "medium" then 25 else 10

abbrev pub factor_of : MathSettings → ℕ
factor_of s = if ltb 12 (top_of s) then 12 else top_of s

abbrev pub is_columnar : MathSettings → Bool
is_columnar s = str_eq s.level "columnar"

-- The operands, and the number of the next draw.
abbrev pub Drawn : Type 0
Drawn = ℕ × ℕ × ℕ

unfoldable pub draw_terms : Random → MathSettings → ℕ → Drawn
draw_terms r s n =
    if is_columnar s
    then (12 + r.int_n (n + 2) 988, 12 + r.int_n (n + 3) 988, n + 4)
    else (r.int_n n (top_of s + 1), r.int_n (n + 1) (top_of s + 1), n + 2)

unfoldable pub in_order : MathSettings → Drawn → Drawn
in_order s (a, b, n) =
    if (not s.allow_negative || is_columnar s) && ltb a b then (b, a, n) else (a, b, n)

unfoldable pub draw_factors : Random → MathSettings → ℕ → Drawn
draw_factors r s n =
    if is_columnar s
    then (12 + r.int_n (n + 2) 88, 2 + r.int_n (n + 3) 24, n + 4)
    else (r.int_n n (factor_of s + 1), r.int_n (n + 1) (factor_of s + 1), n + 2)

unfoldable pub draw_quotient : Random → MathSettings → ℕ → Drawn
draw_quotient r s n =
    if is_columnar s
    then ((2 + r.int_n (n + 2) 8) * (2 + r.int_n (n + 3) 98), 2 + r.int_n (n + 2) 8, n + 4)
    else (
      (1 + r.int_n n (factor_of s)) * r.int_n (n + 1) (top_of s + 1),
      1 + r.int_n n (factor_of s),
      n + 2,
    )

-- The switch over the operations, after the first draws.
unfoldable pub draw_operands : Random → MathSettings → ℕ → Drawn
draw_operands r s n =
    let (a, b, next) = draw_terms r s n in
    if str_eq s.operation "-"
    then in_order s (a, b, next)
    else if str_eq s.operation "*"
    then draw_factors r s next
    else if str_eq s.operation ":"
    then draw_quotient r s next
    else (a, b, next)

-- A wrong answer near the right one.
unfoldable pub near : Random → MathSettings → ℤ → ℕ → ℤ
near r s answer n =
    let v = wrap64 (wrap64 (answer +ℤ pos (r.int_n n 17)) -ℤ pos 8) in
    if not s.allow_negative then max_int (pos 0) v else v

abbrev pub offer : ℤ → List ℤ → List ℤ
offer v options = if mem_ℤ v options then options else options ++ v ∷ []

-- The loop over the options, with fuel, and the number of the next draw.
unfoldable pub add_options : Random → MathSettings → ℤ → ℕ → ℕ → List ℤ → List ℤ × ℕ
add_options r s answer zero n options = (options, n)
add_options r s answer (suc rounds) n options =
    let more = add_options r s answer rounds (n + 1) (offer (near r s answer n) options) in
    if leb 4 (length options) then (options, n) else more

unfoldable pub with_options : Random → MathSettings → ℕ → ℕ → MathQuestion → MathQuestion × ℕ
with_options r s rounds n q =
    if str_eq s.answer_mode "choice"
    then (let answer = result_of q s.operation in
        let (options, next) = add_options r s answer rounds n (answer ∷ []) in
        (record q { options = r.shuffle next options }, next + 1))
    else (q, n)

unfoldable pub draw_question : Random → MathSettings → ℕ → ℕ → MathQuestion × ℕ
draw_question r s rounds n =
    let (a, b, next) = draw_operands r s n in
    with_options r s rounds next (record { left = pos a; right = pos b; options = [] })

unfoldable pub draw_questions : Random → MathSettings → ℕ → ℕ → ℕ → List MathQuestion
draw_questions r s rounds zero n = []
draw_questions r s rounds (suc count) n =
    let (q, next) = draw_question r s rounds n in q ∷ draw_questions r s rounds count next

-- `NewMathSession`.
unfoldable pub new_math_session : Random → ℕ → String → ℤ → MathSettings → Time → MathSession
new_math_session r rounds id participant settings now = record {
  policy_version = pos 0;
  reward_version = pos 3;
  closed = false;
  id = id;
  participant_id = participant;
  settings = settings;
  questions = draw_questions r settings rounds (pos_part (question_count settings)) 0;
  answers = [];
  created_at = now;
}
