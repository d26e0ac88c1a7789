-- ===== src/Math/Replay.antt =====
-- The replay of `MathSession.Validate` (backend/internal/domain/math.go) in closed form.
use family_quest.Base.{
  ℕ, suc, ◌+◌, ◌≤◌, ◌<◌, ◌≡◌, refl, inl, inr, Bool, true, false, ◌&&◌, List, [], ◌∷◌, ◌++◌, ℤ, pos,
  eq_ℤ, length, get_elem?, get_elem?-append_end, length-append, ok, err, invalid_input, subst,
  Option, none, some, arith, Bool-cases, ◌>>=◌, if◌then◌else◌,
}
use family_quest.Domain.Dates.{valid_family_date, parse_date}
use family_quest.Math.Settings.{MathSettings, MathQuestion}
use family_quest.Math.Session.{
  MathAnswer, MathSession, grade, version_stars, reward_stars, record_answer, new_answer, submit,
}
use family_quest.Math.Validate.{
  answer_agrees, agreed, compare_answer, submitted, replay_answer, replay, day_time,
}

-- What the replay asks of an answer, with no session to carry along.
abbrev pub fits : ℤ → MathSettings → MathAnswer → Option Bool → Bool
fits version settings a none = false
fits version settings a (some right) =
    answer_agrees version a right (if right then version_stars version settings else pos 0)

module _ (version : ℤ) (settings : MathSettings) (questions : List MathQuestion) where
  unfoldable pub answer_fits : ℕ → MathAnswer → Bool
  answer_fits i a =
      valid_family_date a.date
      && eq_ℤ a.index (pos i)
      && fits version settings a (grade settings a.values (get_elem? questions i))

  unfoldable pub answers_fit : ℕ → List MathAnswer → Bool
  answers_fit i [] = true
  answers_fit i (a ∷ later) = answer_fits i a && answers_fit (i + 1) later

  pub answers_fit-append :
      (i : ℕ) (answers : List MathAnswer) (a : MathAnswer)
      → answers_fit i (answers ++ a ∷ [])
        ≡ (answers_fit i answers && answer_fits (i + length answers) a)
  unfolding answers_fit
  answers_fit-append i [] a = let e : i + 0 ≡ i = omega arith in rw e (ground arith)
  answers_fit-append i (b ∷ answers) a =
      let e : i + suc (length answers) ≡ i + 1 + length answers = omega arith in
      rw e (ground (arith, answers_fit-append (i + 1) answers a))

-- The session of the replay, with some answers given again.
abbrev pub replayed : MathSession → List MathAnswer → MathSession
replayed s given = record s { closed = false; answers = given }

abbrev pub right_of : Option Bool → Bool
right_of none = false
right_of (some right) = right

abbrev pub given_again : MathSession → ℕ → MathAnswer → MathAnswer
given_again s i a =
    new_answer s (pos i) a.values (right_of (grade s.settings a.values (get_elem? s.questions i)))
      (day_time (parse_date a.date))

module _ (s : MathSession) (given : List MathAnswer) (a : MathAnswer)
    (room : length given < length s.questions) where
  submit-replayed :
      submit (replayed s given) (pos (length given)) a.values (day_time (parse_date a.date))
      ≡ record_answer
          (replayed s given)
          (pos (length given))
          a.values
          (day_time (parse_date a.date))
          (grade s.settings a.values (get_elem? s.questions (length given)))
  unfolding submit
  submit-replayed = ground arith

  graded_again :
      (o : Option Bool)
      → (submitted (
            record_answer
              (replayed s given)
              (pos (length given))
              a.values
              (day_time (parse_date a.date))
              o)
          >>= agreed s.reward_version (length given) a)
        ≡ (if fits s.reward_version s.settings a o
            then ok (
                replayed s (
                  given
                  ++ new_answer s
                      (pos (length given))
                      a.values
                      (right_of o)
                      (day_time (parse_date a.date))
                    ∷ []))
            else err invalid_input)
  unfolding record_answer submitted agreed compare_answer new_answer reward_stars
  graded_again none = refl
  graded_again (some right) = ground (
    arith,
    get_elem?-append_end given
        (new_answer s (pos (length given)) a.values right (day_time (parse_date a.date))),
  )

  -- One round of the replay in closed form.
  replay_answer_lem : replay_answer (length given) a (replayed s given) ≡ (
      if answer_fits s.reward_version s.settings s.questions (length given) a
      then ok (replayed s (given ++ given_again s (length given) a ∷ []))
      else err invalid_input)
  unfolding replay_answer answer_fits
  replay_answer_lem = rw submit-replayed (
      ground
        (arith, graded_again (grade s.settings a.values (get_elem? s.questions (length given)))))

length-end :
    {i : ℕ} (given : List MathAnswer) (x : MathAnswer)
    → length given ≡ i
    → length (given ++ x ∷ []) ≡ i + 1
length-end given x e = omega (arith, length-append given (x ∷ []))

module _ (s : MathSession) where
  abbrev pub fit : ℕ → List MathAnswer → Bool
  fit = answers_fit s.reward_version s.settings s.questions

  -- The round at position `i` of the replay.
  round :
      (i : ℕ) (given : List MathAnswer) (a : MathAnswer)
      → length given ≡ i
      → i < length s.questions
      → replay_answer i a (replayed s given) ≡ (
          if answer_fits s.reward_version s.settings s.questions i a
          then ok (replayed s (given ++ given_again s i a ∷ []))
          else err invalid_input)
  round i given a e room =
      subst
        (λ (j : ℕ). replay_answer j a (replayed s given) ≡ (
          if answer_fits s.reward_version s.settings s.questions j a
          then ok (replayed s (given ++ given_again s j a ∷ []))
          else err invalid_input))
        e (replay_answer_lem s given a (rw e room))

  pub replay-fit :
      (i : ℕ) (given later : List MathAnswer) {c : MathSession}
      → length given ≡ i
      → i + length later ≤ length s.questions
      → replay i later (replayed s given) ≡ ok c
      → fit i later ≡ true
  unfolding replay answers_fit
  replay-fit i given [] e room h = refl
  replay-fit i given (a ∷ later) e room h =
      elim (Bool-cases (answer_fits s.reward_version s.settings s.questions i a)) [
        | inl good ↦ rw good (
            replay-fit (i + 1) (given ++ given_again s i a ∷ []) later
              (length-end given (given_again s i a) e) (omega arith)
              (rw (round i given a e (omega arith), good) at h))
        | inr bad ↦ cc (rw (round i given a e (omega arith), bad) at h)
      ]

  pub fit-replay :
      (i : ℕ) (given later : List MathAnswer)
      → length given ≡ i
      → i + length later ≤ length s.questions
      → fit i later ≡ true
      → (c : MathSession) × (replay i later (replayed s given) ≡ ok c)
  unfolding replay answers_fit
  fit-replay i given [] e room h = (replayed s given, refl)
  fit-replay i given (a ∷ later) e room h =
      let good : answer_fits s.reward_version s.settings s.questions i a ≡ true = ground arith in
      let rest : fit (i + 1) later ≡ true = ground arith in
      rw (round i given a e (omega arith), good)
        (fit-replay (i + 1) (given ++ given_again s i a ∷ []) later
          (length-end given (given_again s i a) e) (omega arith) rest)
