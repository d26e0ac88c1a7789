-- ===== src/Application/Lessons.antt =====
-- Lessons (backend/internal/application/learning.go). The draws and the random identifier of a new
-- session are arguments, with the fuel for the draws; a view that comes with an error, of a session
-- that was not saved, is left out.
use family_quest.Base.{
  ℕ, not, ◌||◌, String, ℤ, pos, le_ℤ, str_eq, Result, ok, err, forbidden, fail_if, ◌>>◌,
}
use family_quest.Domain.Principals.{Principal, role_child}
use family_quest.Domain.ActivityRewards.{ActivityReward}
use family_quest.Domain.Reading.{ReadingCompletion, validate_completion}
use family_quest.Math.Settings.{MathSettings, validate_settings}
use family_quest.Math.Work.{Values}
use family_quest.Math.Draws.{Random, new_math_session}
use family_quest.Math.Session.{MathSession}
use family_quest.Math.View.{MathView, view}
use family_quest.Store.Db.{Db}
use family_quest.Store.MathSessions.{create_math_session, answer_math, finish_math}
use family_quest.Store.Reading.{complete_reading, start_reading}
use family_quest.Application.Access.{
  Service, interactive_mutation, authorize_mutation, writable, other_family, not_child,
}

abbrev pub view_of : Result MathSession → Result MathView
view_of (err e) = err e
view_of (ok s) = ok (view s)

unfoldable pub allowed_math : Service → Principal → MathSettings → Result (Unit {0})
allowed_math s p settings = do
  writable s p interactive_mutation
  fail_if (other_family s p) forbidden
  fail_if (not_child p) forbidden
  validate_settings settings

unfoldable pub start_math_allowed :
    Service
    → Db
    → Principal
    → Random
    → ℕ
    → String
    → MathSettings
    → Result (Unit {0})
    → Db × Result MathView
start_math_allowed s db p r rounds id settings (err e) = (db, err e)
start_math_allowed s db p r rounds id settings (ok u) =
    let saved =
      create_math_session db (new_math_session r rounds id p.participant_id settings s.now) in
    (saved.0, view_of saved.1)

-- `Service.StartMath`.
unfoldable pub start_math :
    Service → Db → Principal → Random → ℕ → String → MathSettings → Db × Result MathView
start_math s db p r rounds id settings =
    start_math_allowed s db p r rounds id settings (allowed_math s p settings)

-- A lesson that has started goes on after the subscription ends, but never by an agent.
unfoldable pub allowed_lesson : Service → Principal → Result (Unit {0})
allowed_lesson s p = do
  authorize_mutation s p interactive_mutation
  fail_if (other_family s p) forbidden
  fail_if (not_child p) forbidden

unfoldable pub answer_allowed :
    Service → Db → Principal → String → ℤ → Values → Result (Unit {0}) → Db × Result MathView
answer_allowed s db p id i values (err e) = (db, err e)
answer_allowed s db p id i values (ok u) =
    let done = answer_math db p.participant_id id i values s.now in (done.0, view_of done.1)

-- `Service.AnswerMath`.
unfoldable pub answer : Service → Db → Principal → String → ℤ → Values → Db × Result MathView
answer s db p id i values = answer_allowed s db p id i values (allowed_lesson s p)

unfoldable pub finish_allowed : Db → Principal → String → Result (Unit {0}) → Db × Result MathView
finish_allowed db p id (err e) = (db, err e)
finish_allowed db p id (ok u) =
    let done = finish_math db p.participant_id id in (done.0, view_of done.1)

-- `Service.FinishMath`.
unfoldable pub finish : Service → Db → Principal → String → Db × Result MathView
finish s db p id = finish_allowed db p id (allowed_lesson s p)

unfoldable pub allowed_reading : Service → Principal → ReadingCompletion → Result (Unit {0})
allowed_reading s p c = do
  writable s p interactive_mutation
  fail_if (other_family s p) forbidden
  fail_if (not_child p) forbidden
  validate_completion c

unfoldable pub complete_allowed :
    Service → Db → Principal → ReadingCompletion → Result (Unit {0}) → Db × Result ActivityReward
complete_allowed s db p c (err e) = (db, err e)
complete_allowed s db p c (ok u) = complete_reading db p.participant_id c s.now

-- `Service.CompleteReading`.
unfoldable pub complete_lesson :
    Service → Db → Principal → ReadingCompletion → Db × Result ActivityReward
complete_lesson s db p c = complete_allowed s db p c (allowed_reading s p c)

unfoldable pub allowed_start : Service → Principal → ReadingCompletion → Result (Unit {0})
allowed_start s p c = do
  fail_if (not (str_eq p.role role_child) || le_ℤ p.participant_id (pos 0) || other_family s p)
      forbidden
  writable s p interactive_mutation
  validate_completion c

unfoldable pub start_allowed :
    Service → Db → Principal → ReadingCompletion → Result (Unit {0}) → Db × Result (Unit {0})
start_allowed s db p c (err e) = (db, err e)
start_allowed s db p c (ok u) = start_reading db p.participant_id c s.now

-- `Service.StartReading`.
unfoldable pub start_lesson : Service → Db → Principal → ReadingCompletion → Db × Result (Unit {0})
start_lesson s db p c = start_allowed s db p c (allowed_start s p c)
