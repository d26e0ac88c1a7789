-- ===== src/Math/Kept.antt =====
-- `Submit` and `AwardAnswer` on sessions that `MathSession.Validate` accepts
-- (backend/internal/domain/math.go).
use family_quest.Base.{
  ℕ, zero, suc, ◌+◌, ◌≤◌, ◌≡◌, refl, ◌⊎◌, inl, inr, Bool, true, List, [], ◌∷◌, ◌++◌, ℤ, pos, ◌≤ℤ◌,
  eq_ℤ_iff, le_ℤ, lt_ℤ, length, get_elem?, set, length-append, length-set, pos_part, Error, ok, err,
  Result-cases, Option, none, some, arith, Bool-cases,
}
use family_quest.Domain.Dates.{Time, valid_family_date, family_date}
use family_quest.Math.Settings.{MathSettings, max_int}
use family_quest.Math.Session.{
  MathAnswer, MathSession, grade, reward_stars, new_answer, submit, award_answer, capped_stars,
  award_stored,
}
use family_quest.Math.Work.{Values}
use family_quest.Math.Stars.{version_stars_bounds}
use family_quest.Math.Validate.{answer_agrees, replay, valid_frame, validate_session}
use family_quest.Math.Answers.{Outcome, rejected, retried, answered, submit-Outcome}
use family_quest.Math.Replay.{
  fits, answer_fits, answers_fit, answers_fit-append, replayed, replay-fit, fit-replay,
}

-- `Validate` without the replay.
pub record IsSound (s : MathSession) : Type 0 where
  pub room : length s.answers ≤ length s.questions
  pub frame : valid_frame s ≡ ok tt
  pub answers_sound : answers_fit s.reward_version s.settings s.questions 0 s.answers ≡ true

replay_error :
    (s : MathSession) {x : Error}
    → length s.answers ≤ length s.questions
    → valid_frame s ≡ ok tt
    → replay 0 s.answers (replayed s []) ≡ err x
    → validate_session s ≡ ok tt
    → ⊥
unfolding validate_session
replay_error s room frame e h = ground (arith, room, frame, e)

validate_session-IsSound : (s : MathSession) → validate_session s ≡ ok tt → IsSound s
unfolding validate_session
validate_session-IsSound s h =
    let room : length s.answers ≤ length s.questions = ground arith in
    let frame : valid_frame s ≡ ok tt = ground arith in
    elim (Result-cases (replay 0 s.answers (replayed s []))) [
      | inl (c, e) ↦ record {
        room = room;
        frame = frame;
        answers_sound = replay-fit s 0 [] s.answers refl (omega arith) e;
      }
      | inr (x, e) ↦ absurd (replay_error s room frame e h)
    ]

pub IsSound-validate_session : (s : MathSession) → IsSound s → validate_session s ≡ ok tt
unfolding validate_session
IsSound-validate_session s sound =
    let (c, e) = fit-replay s 0 [] s.answers refl (omega arith) sound.answers_sound in
    ground (arith, sound.room, sound.frame, e)

answers_fit_end :
    (s : MathSession) (a : MathAnswer)
    → answers_fit s.reward_version s.settings s.questions 0 s.answers ≡ true
    → answer_fits s.reward_version s.settings s.questions (length s.answers) a ≡ true
    → answers_fit s.reward_version s.settings s.questions 0 (s.answers ++ a ∷ []) ≡ true
answers_fit_end s a h k =
    let e : 0 + length s.answers ≡ length s.answers = omega arith in
    rw (answers_fit-append s.reward_version s.settings s.questions 0 s.answers a, h, e, k)

-- An answer that has just been recorded fits.
new_answer-fits :
    (s : MathSession) (i : ℤ) (values : Values) (now : Time) (right : Bool)
    → i ≡ pos (length s.answers)
    → valid_family_date (family_date now) ≡ true
    → grade s.settings values (get_elem? s.questions (length s.answers)) ≡ some right
    → answer_fits s.reward_version s.settings s.questions
        (length s.answers)
        (new_answer s i values right now)
      ≡ true
unfolding answer_fits new_answer reward_stars answer_agrees
new_answer-fits s i values now right e d g =
    ground
      (arith, eq_ℤ_iff i (pos (length s.answers)), version_stars_bounds s.reward_version s.settings)

module _ (s : MathSession) (i : ℤ) (values : Values) (now : Time) where
  Outcome-IsSound :
      {r : MathSession × Option Error}
      → valid_family_date (family_date now) ≡ true
      → Outcome s i values now r
      → IsSound s
      → IsSound r.0
  unfolding valid_frame
  Outcome-IsSound d (rejected x) sound = sound
  Outcome-IsSound d (retried h) sound = sound
  Outcome-IsSound d (answered c e room right g) sound =
      let a = new_answer s i values right now in
      record {
        room = omega (arith, length-append s.answers (a ∷ []));
        frame = sound.frame;
        answers_sound =
            answers_fit_end s a sound.answers_sound (new_answer-fits s i values now right e d g);
      }

-- Whatever is submitted to a session that `Validate` accepts, at a time whose date in Minsk lies in
-- the years 2000 to 2100, the session that results passes `Validate`.
pub submit-validate :
    (s : MathSession) (i : ℤ) (values : Values) (now : Time)
    → valid_family_date (family_date now) ≡ true
    → validate_session s ≡ ok tt
    → validate_session (submit s i values now).0 ≡ ok tt
submit-validate s i values now d h = IsSound-validate_session (submit s i values now).0 (
    Outcome-IsSound s i values now d (submit-Outcome s i values now) (validate_session-IsSound s h))

-- Stars that are lowered, but not below nothing, still fit, except under the oldest scheme.
lowered-fits :
    (version : ℤ) (settings : MathSettings) (a : MathAnswer) (stars : ℤ) (o : Option Bool)
    → pos 0 ≤ℤ stars
    → stars ≤ℤ a.stars
    → (le_ℤ (pos 2) version ≡ true) ⊎ (stars ≡ a.stars)
    → fits version settings a o ≡ true
    → fits version settings (record a { stars = stars }) o ≡ true
unfolding answer_agrees
lowered-fits version settings a stars none lo hi v h = h
lowered-fits version settings a stars (some right) lo hi v h = ground arith

fits_nonneg :
    (version : ℤ) (settings : MathSettings) (a : MathAnswer) (o : Option Bool)
    → fits version settings a o ≡ true
    → pos 0 ≤ℤ a.stars
unfolding answer_agrees
fits_nonneg version settings a none h = cc
fits_nonneg version settings a (some right) h = ground arith

capped_lowers :
    (s : MathSession) (stars earned : ℤ)
    → pos 0 ≤ℤ stars
    → (pos 0 ≤ℤ capped_stars s stars earned)
      × (capped_stars s stars earned ≤ℤ stars)
      × ((le_ℤ (pos 2) s.reward_version ≡ true) ⊎ (capped_stars s stars earned ≡ stars))
unfolding capped_stars max_int
capped_lowers s stars earned h = elim (Bool-cases (le_ℤ (pos 2) s.reward_version)) [
  | inl capped ↦ (ground arith, ground arith, inl capped)
  | inr free ↦ (ground arith, ground arith, inr (ground arith))
]

module _ (s : MathSession) (earned : ℤ) where
  capped_fits :
      (i : ℕ) (a : MathAnswer)
      → answer_fits s.reward_version s.settings s.questions i a ≡ true
      → answer_fits s.reward_version s.settings s.questions i
          (record a { stars = capped_stars s a.stars earned })
        ≡ true
  unfolding answer_fits
  capped_fits i a h =
      let o = grade s.settings a.values (get_elem? s.questions i) in
      let fit : fits s.reward_version s.settings a o ≡ true = ground arith in
      let (lo, hi, v) =
        capped_lowers s a.stars earned (fits_nonneg s.reward_version s.settings a o fit) in
      let low =
        lowered-fits s.reward_version s.settings a (capped_stars s a.stars earned) o lo hi v fit in
      ground (arith, low)

  set_fits :
      (i k : ℕ) (answers : List MathAnswer) (a : MathAnswer)
      → get_elem? answers k ≡ some a
      → answers_fit s.reward_version s.settings s.questions i answers ≡ true
      → answers_fit s.reward_version s.settings s.questions i
          (set answers k (record a { stars = capped_stars s a.stars earned }))
        ≡ true
  unfolding answers_fit
  set_fits i k [] a e h = cc
  set_fits i zero (b ∷ answers) a e h = ground (arith, capped_fits i a)
  set_fits i (suc k) (b ∷ answers) a e h = ground (arith, set_fits (i + 1) k answers a)

  award_stored-IsSound :
      (i : ℤ) (o : Option MathAnswer)
      → get_elem? s.answers (pos_part i) ≡ o
      → IsSound s
      → IsSound (award_stored s i earned o).0
  unfolding award_stored valid_frame
  award_stored-IsSound i none e sound = sound
  award_stored-IsSound i (some a) e sound =
      let a' = record a { stars = capped_stars s a.stars earned } in
      record {
        room = omega (arith, length-set s.answers (pos_part i) a', sound.room);
        frame = sound.frame;
        answers_sound = set_fits 0 (pos_part i) s.answers a e sound.answers_sound;
      }

-- Capping the stars of any answer by any day's budget keeps a session that `Validate` accepts
-- acceptable.
pub award_answer-validate :
    (s : MathSession) (i earned : ℤ)
    → validate_session s ≡ ok tt
    → validate_session (award_answer s i earned).0 ≡ ok tt
unfolding award_answer
award_answer-validate s i earned h = elim (Bool-cases (lt_ℤ i (pos 0))) [
  | inl outside ↦ rw outside h
  | inr inside ↦ rw inside (
      IsSound-validate_session (award_stored s i earned (get_elem? s.answers (pos_part i))).0 (
        award_stored-IsSound s earned i (get_elem? s.answers (pos_part i)) refl
          (validate_session-IsSound s h)))
]
