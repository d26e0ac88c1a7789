-- ===== src/Store/Budget.antt =====
-- The daily budget of arithmetic stars (`AnswerMath`, backend/internal/store/learning.go).
use family_quest.Base.{
  ℕ, ◌+◌, ◌≡◌, refl, inl, inr, Bool, true, false, ◌&&◌, List, [], ◌∷◌, ◌++◌, String, ℤ, pos, ◌≤ℤ◌,
  ◌+ℤ◌, le_ℤ, lt_ℤ, eq_ℤ, eq_ℤ_iff, pos_part, all, length, length-append, get_elem?,
  get_elem?-append_end, Error, Option, none, some, arith, Bool-cases, ltb,
}
use family_quest.Domain.Dates.{Time}
use family_quest.Math.Work.{Values}
use family_quest.Math.Session.{
  MathAnswer, MathSession, new_answer, award_answer, award_stored, capped_stars, math_reward,
  daily_limit,
}
use family_quest.Math.Settings.{max_int}
use family_quest.Math.Stars.{reward_stars_bounds, capped_stars_bounds}
use family_quest.Math.Answers.{Outcome, rejected, retried, answered, submit-Outcome}
use family_quest.Store.Db.{Db, ParticipantRow, MathRow, active_child, earned_stars}
use family_quest.Store.Ledger.{IsBudgeted, earned_stars_nonneg, insert-IsBudgeted}
use family_quest.Store.MathSessions.{
  find_session, add_reward, store_award, store_answer, answer_session, answer_for, answer_math,
}

-- The stored sessions belong to the participant of their row, and take part in the budget.
abbrev pub is_budgeted : MathRow → Bool
is_budgeted r =
    eq_ℤ r.session.participant_id r.participant_id && le_ℤ (pos 2) r.session.reward_version

daily_limit_le : (s : MathSession) → daily_limit s ≤ℤ pos 40
unfolding daily_limit
daily_limit_le s = ground arith

small : (x : ℤ) → x ≤ℤ pos 40 → x ≤ℤ pos 9_000_000_000_000_000_000
small x h = ground arith

-- A new answer, capped by what its day has left, keeps the budget.
module _ (db : Db) (s : MathSession) (i : ℤ) (a : MathAnswer)
    (b : IsBudgeted "math" 40 db.activity_rewards) (scheme : le_ℤ (pos 2) s.reward_version ≡ true)
    (gain : pos 0 ≤ℤ a.stars) where
  abbrev earned : ℤ
  earned = earned_stars "math" s.participant_id a.date db.activity_rewards

  capped_room :
      (pos 0 ≤ℤ capped_stars s a.stars earned) × (earned +ℤ capped_stars s a.stars earned ≤ℤ pos 40)
  unfolding max_int
  capped_room =
      let held : earned ≤ℤ pos 40 = b.within s.participant_id a.date in
      let nonneg : pos 0 ≤ℤ earned =
        earned_stars_nonneg "math" s.participant_id a.date db.activity_rewards b.gains in
      let (lo, under, day) =
        capped_stars_bounds s a.stars earned gain nonneg (small earned held) scheme in
      (lo, ground (arith, held, day, daily_limit_le s))

  award-IsBudgeted : IsBudgeted "math" 40 (add_reward db (award_stored s i earned (some a)).1)
  unfolding award_stored math_reward
  award-IsBudgeted = elim (Bool-cases (eq_ℤ (capped_stars s a.stars earned) (pos 0))) [
    | inl nothing ↦ rw nothing b
    | inr some_stars ↦ rw some_stars (
        insert-IsBudgeted "math" 40 db.participants db.activity_rewards
          (math_reward s i (record a { stars = capped_stars s a.stars earned })) b capped_room.0
          capped_room.1)
  ]

find_session-is_budgeted :
    (id : String) (owner : ℤ) (rows : List MathRow) (s : MathSession)
    → all is_budgeted rows ≡ true
    → find_session id owner rows ≡ some s
    → (s.participant_id ≡ owner) × (le_ℤ (pos 2) s.reward_version ≡ true)
unfolding find_session
find_session-is_budgeted id owner [] s h e = ground arith
find_session-is_budgeted id owner (r ∷ rows) s h e = ground (
  arith,
  find_session-is_budgeted id owner rows s,
  eq_ℤ_iff r.session.participant_id r.participant_id,
  eq_ℤ_iff r.participant_id owner,
)

appended :
    (as_given : List MathAnswer) (a : MathAnswer) (i : ℤ)
    → i ≡ pos (length as_given)
    → get_elem? (as_given ++ a ∷ []) (pos_part i) ≡ some a
appended as_given a i e = rw e (get_elem?-append_end as_given a)

ltb_irrefl : (n : ℕ) → ltb n n ≡ false
ltb_irrefl n = ground arith

ltb_suc : (n : ℕ) → ltb n (n + 1) ≡ true
ltb_suc n = ground arith

new_answer-gains :
    (s : MathSession) (i : ℤ) (values : Values) (right : Bool) (now : Time)
    → pos 0 ≤ℤ (new_answer s i values right now).stars
unfolding new_answer
new_answer-gains s i values right now = ground (arith, reward_stars_bounds s)

module _ (db : Db) (owner : ℤ) (id : String) (i : ℤ) (values : Values) (now : Time)
    (b : IsBudgeted "math" 40 db.activity_rewards) where
  store_answer-IsBudgeted :
      (s : MathSession)
      → s.participant_id ≡ owner
      → le_ℤ (pos 2) s.reward_version ≡ true
      → {r : MathSession × Option Error} → Outcome s i values now r
      → IsBudgeted "math" 40 (store_answer db owner id i (length s.answers) r).0.activity_rewards
  unfolding store_answer store_award award_answer
  store_answer-IsBudgeted s own scheme (rejected x) = b
  store_answer-IsBudgeted s own scheme (retried again) = rw (ltb_irrefl (length s.answers)) b
  store_answer-IsBudgeted s own scheme (answered unclosed at_end room right g) =
      let a : MathAnswer = new_answer s i values right now in
      let got : get_elem? (s.answers ++ a ∷ []) (pos_part i) ≡ some a =
        appended s.answers a i at_end in
      let longer : ltb (length s.answers) (length (s.answers ++ a ∷ [])) ≡ true =
        rw (length-append s.answers (a ∷ [])) (ltb_suc (length s.answers)) in
      let inside : lt_ℤ i (pos 0) ≡ false = ground (arith, at_end) in
      rw (longer, inside, got, ← own)
        (award-IsBudgeted db (record s { answers = s.answers ++ a ∷ [] }) i a b scheme
          (new_answer-gains s i values right now))

  answer_session-IsBudgeted :
      all is_budgeted db.math_sessions ≡ true
      → (o : Option MathSession) → find_session id owner db.math_sessions ≡ o
      → IsBudgeted "math" 40 (answer_session db owner id i values now o).0.activity_rewards
  unfolding answer_session
  answer_session-IsBudgeted rows none e = b
  answer_session-IsBudgeted rows (some s) e =
      let (own, scheme) = find_session-is_budgeted id owner db.math_sessions s rows e in
      store_answer-IsBudgeted s own scheme (submit-Outcome s i values now)

  answer_for-IsBudgeted :
      all is_budgeted db.math_sessions ≡ true
      → (o : Option ParticipantRow)
      → IsBudgeted "math" 40 (answer_for db owner id i values now o).0.activity_rewards
  unfolding answer_for
  answer_for-IsBudgeted rows none = b
  answer_for-IsBudgeted rows (some p) =
      answer_session-IsBudgeted rows (find_session id owner db.math_sessions) refl

-- Whatever is answered, nobody has more than forty stars for arithmetic on a day, and no stored
-- reward takes stars away, where it was so before and the stored sessions belong to their rows'
-- participants and take part in the budget.
pub answer_math-IsBudgeted :
    (db : Db) (owner : ℤ) (id : String) (i : ℤ) (values : Values) (now : Time)
    → IsBudgeted "math" 40 db.activity_rewards
    → all is_budgeted db.math_sessions ≡ true
    → IsBudgeted "math" 40 (answer_math db owner id i values now).0.activity_rewards
unfolding answer_math
answer_math-IsBudgeted db owner id i values now b rows =
    answer_for-IsBudgeted db owner id i values now b rows (active_child owner db.participants)
