-- ===== src/Math/View.antt =====
-- `MathSession.View` (backend/internal/domain/math.go).
use family_quest.Base.{
  ℕ, suc, ◌+◌, ◌-◌, Bool, ◌||◌, List, [], ◌∷◌, String, ℤ, pos, pos_part, ◌+ℤ◌, wrap64, length,
  get_elem?, Option, none, some, ◌==◌, if◌then◌else◌,
}
use family_quest.Domain.Dates.{Time}
use family_quest.Math.Settings.{MathSettings, MathQuestion}
use family_quest.Math.Work.{MathField, Values, work}
use family_quest.Math.Session.{MathAnswer, MathSession}

pub record MathFeedback : Type 0 where
  pub index : ℤ
  pub correct : Bool
  pub stars : ℤ
  pub expected : Values
  pub fields : List MathField
  pub question : MathQuestion

-- The sums that `View` makes over the answers.
pub record Tally : Type 0 where
  pub stars : ℤ
  pub correct : ℕ
  pub streak : ℕ
  pub best_streak : ℕ

abbrev pub no_answers : Tally
no_answers = record { stars = pos 0; correct = 0; streak = 0; best_streak = 0 }

abbrev larger : ℕ → ℕ → ℕ
larger a b = a + (b - a)

unfoldable pub count_answer : Tally → MathAnswer → Tally
count_answer t a =
    let streak : ℕ = if a.correct then suc t.streak else 0 in
    record {
      stars = wrap64 (t.stars +ℤ a.stars);
      correct = if a.correct then suc t.correct else t.correct;
      streak = streak;
      best_streak = larger t.best_streak streak;
    }

unfoldable pub tally : Tally → List MathAnswer → Tally
unfolding count_answer
tally t [] = t
tally t (a ∷ as_later) = tally (count_answer t a) as_later

pub record MathView : Type 0 where
  pub finished : Bool
  pub id : String
  pub settings : MathSettings
  pub index : ℕ
  pub total : ℕ
  pub correct : ℕ
  pub stars : ℤ
  pub best_streak : ℕ
  pub created_at : Time
  pub question : Option MathQuestion
  pub fields : List MathField
  pub feedback : Option MathFeedback

unfoldable pub feedback_on : MathSettings → MathAnswer → Option MathQuestion → Option MathFeedback
feedback_on settings a none = none
feedback_on settings a (some q) = some (record {
  index = a.index;
  correct = a.correct;
  stars = a.stars;
  expected = (work q settings).1;
  fields = (work q settings).0;
  question = q;
})

unfoldable pub last_feedback : MathSession → Option MathAnswer → Option MathFeedback
unfolding feedback_on
last_feedback s none = none
last_feedback s (some a) = feedback_on s.settings a (get_elem? s.questions (pos_part a.index))

abbrev last_answer : List MathAnswer → ℕ → Option MathAnswer
last_answer answers n = if n == 0 then none else get_elem? answers (n - 1)

unfoldable pub fields_of : MathSettings → Option MathQuestion → List MathField
fields_of settings none = []
fields_of settings (some q) = (work q settings).0

-- `MathSession.View`.
unfoldable pub view : MathSession → MathView
unfolding tally last_feedback fields_of
view s =
    let answered : ℕ = length s.answers in
    let finished = s.closed || (answered == length s.questions) in
    let t = tally no_answers s.answers in
    let q = if finished then none else get_elem? s.questions answered in
    record {
      finished = finished;
      id = s.id;
      settings = s.settings;
      index = answered;
      total = length s.questions;
      correct = t.correct;
      stars = t.stars;
      best_streak = t.best_streak;
      created_at = s.created_at;
      question = q;
      fields = fields_of s.settings q;
      feedback = last_feedback s (last_answer s.answers answered);
    }
