-- ===== src/Math/Repeats.antt =====
-- Answers that are sent again (`MathSession.Submit` and `AwardAnswer`,
-- backend/internal/domain/math.go).
use family_quest.Base.{
  ℕ, ◌≤◌, ◌≡◌, refl, ap, ◌∙◌, inl, inr, true, [], ◌∷◌, ◌++◌, ℤ, pos, lt_ℤ, pos_part, length,
  length-append, length-set, get_elem?, get_elem?-some, get_elem?-lt, get_elem?-append_left,
  get_elem?-append_end, set-keeps, Error, Option, none, some, arith, Bool-cases,
}
use family_quest.Domain.Dates.{Time}
use family_quest.Math.Work.{Values}
use family_quest.Math.Session.{
  MathAnswer, MathSession, new_answer, submit, award_answer, award_stored, capped_stars,
}
use family_quest.Math.Answers.{Outcome, rejected, retried, answered, submit-Outcome, submit_retry}

-- What may become of a session: submissions, awards, and that it is finished.
pub data Later (s : MathSession) : MathSession → Type 0 where
  here : Later s s
  submitted :
      {t : MathSession}
      → Later s t
      → (i : ℤ) (values : Values) (now : Time) → Later s (submit t i values now).0
  awarded : {t : MathSession} → Later s t → (i earned : ℤ) → Later s (award_answer t i earned).0
  finished : {t : MathSession} → Later s t → Later s (record t { closed = true })

-- The same answer, but for its stars.
abbrev pub SameAnswer : MathAnswer → MathAnswer → Type 0
SameAnswer a b =
    (b.index ≡ a.index) × (b.values ≡ a.values) × (b.correct ≡ a.correct) × (b.date ≡ a.date)

-- The session holds the answer at a position.
abbrev pub Holds : MathSession → ℕ → MathAnswer → Type 0
Holds s i a = (b : MathAnswer) × (get_elem? s.answers i ≡ some b) × SameAnswer a b

abbrev HasRoom : MathSession → Type 0
HasRoom s = length s.answers ≤ length s.questions

module _ (i : ℕ) (a : MathAnswer) where
  Outcome-Holds :
      {s : MathSession} {j : ℤ} {values : Values} {now : Time} {r : MathSession × Option Error}
      → Outcome s j values now r
      → Holds s i a
      → Holds r.0 i a
  Outcome-Holds (rejected x) h = h
  Outcome-Holds (retried l) h = h
  Outcome-Holds {s} {j} {values} {now} (answered c e room right g) (b, place, same) = (
    b,
    get_elem?-append_left s.answers (new_answer s j values right now ∷ []) i
          (get_elem?-some s.answers i b place)
        ∙ place,
    same,
  )

  award_stored-Holds :
      (s : MathSession) (j earned : ℤ) (o : Option MathAnswer)
      → get_elem? s.answers (pos_part j) ≡ o
      → Holds s i a
      → Holds (award_stored s j earned o).0 i a
  unfolding award_stored
  award_stored-Holds s j earned none e h = h
  award_stored-Holds s j earned (some given) e (b, place, same) =
      set-keeps (SameAnswer a) s.answers i (pos_part j) b given
        (record given { stars = capped_stars s given.stars earned }) place same e (λ same. same)

  award_answer-Holds :
      (s : MathSession) (j earned : ℤ) → Holds s i a → Holds (award_answer s j earned).0 i a
  unfolding award_answer
  award_answer-Holds s j earned h = elim (Bool-cases (lt_ℤ j (pos 0))) [
    | inl outside ↦ rw outside h
    | inr inside ↦
        rw inside (award_stored-Holds s j earned (get_elem? s.answers (pos_part j)) refl h)
  ]

  Later-Holds : {s t : MathSession} → Later s t → Holds s i a → Holds t i a
  Later-Holds here h = h
  Later-Holds (submitted {t} past j values now) h =
      Outcome-Holds (submit-Outcome t j values now) (Later-Holds past h)
  Later-Holds (awarded {t} past j earned) h = award_answer-Holds t j earned (Later-Holds past h)
  Later-Holds (finished past) h = Later-Holds past h

Outcome-HasRoom :
    {s : MathSession} {j : ℤ} {values : Values} {now : Time} {r : MathSession × Option Error}
    → Outcome s j values now r
    → HasRoom s
    → HasRoom r.0
Outcome-HasRoom (rejected x) room = room
Outcome-HasRoom (retried l) room = room
Outcome-HasRoom {s} {j} {values} {now} (answered c e more right g) room =
    omega (arith, length-append s.answers (new_answer s j values right now ∷ []))

award_stored-HasRoom :
    (s : MathSession) (j earned : ℤ) (o : Option MathAnswer)
    → HasRoom s
    → HasRoom (award_stored s j earned o).0
unfolding award_stored
award_stored-HasRoom s j earned none room = room
award_stored-HasRoom s j earned (some a) room =
    omega (
      arith,
      length-set s.answers (pos_part j) (record a { stars = capped_stars s a.stars earned }),
    )

award_answer-HasRoom :
    (s : MathSession) (j earned : ℤ) → HasRoom s → HasRoom (award_answer s j earned).0
unfolding award_answer
award_answer-HasRoom s j earned room = elim (Bool-cases (lt_ℤ j (pos 0))) [
  | inl outside ↦ rw outside room
  | inr inside ↦ rw inside (award_stored-HasRoom s j earned (get_elem? s.answers (pos_part j)) room)
]

Later-HasRoom : {s t : MathSession} → Later s t → HasRoom s → HasRoom t
Later-HasRoom here room = room
Later-HasRoom (submitted {t} past j values now) room =
    Outcome-HasRoom (submit-Outcome t j values now) (Later-HasRoom past room)
Later-HasRoom (awarded {t} past j earned) room =
    award_answer-HasRoom t j earned (Later-HasRoom past room)
Later-HasRoom (finished past) room = Later-HasRoom past room

-- A submission that is accepted leaves an answer at its place.
Outcome-answer :
    {s : MathSession} {i : ℕ} {values : Values} {now : Time} {r : MathSession × Option Error}
    → Outcome s (pos i) values now r
    → r.1 ≡ none
    → (a : MathAnswer) × (get_elem? r.0.answers i ≡ some a)
Outcome-answer (rejected x) h = cc
Outcome-answer {s} {i} (retried l) h = get_elem?-lt s.answers i (ground arith)
Outcome-answer {s} {i} {values} {now} (answered c e room right g) h =
    let at_end : i ≡ length s.answers = ground arith in
    let b : MathAnswer = new_answer s (pos i) values right now in
    (b, ap (get_elem? (s.answers ++ b ∷ [])) at_end ∙ get_elem?-append_end s.answers b)

-- Once a submission has been accepted, in a session with no more answers than questions, there is an
-- answer to its question, and whatever submissions, awards and the end of the session come after it,
-- this answer keeps its values, its verdict and its date, and any answer to the same question is
-- accepted again and changes nothing.
pub submit_repeated :
    (s t : MathSession) (i : ℕ) (values other : Values) (now later : Time)
    → length s.answers ≤ length s.questions
    → (submit s (pos i) values now).1 ≡ none
    → Later (submit s (pos i) values now).0 t
    → (a : MathAnswer) × (get_elem? (submit s (pos i) values now).0.answers i ≡ some a)
      × Holds t i a
      × (submit t (pos i) other later ≡ (t, none))
submit_repeated s t i values other now later room accepted past =
    let first = submit-Outcome s (pos i) values now in
    let (a, saved) = Outcome-answer first accepted in
    let (b, place, same) = Later-Holds i a past (a, saved, (refl, refl, refl, refl)) in
    (
      a,
      saved,
      (b, place, same),
      submit_retry t i other later (get_elem?-some t.answers i b place)
          (Later-HasRoom past (Outcome-HasRoom first room)),
    )
