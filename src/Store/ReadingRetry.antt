-- ===== src/Store/ReadingRetry.antt =====
-- Retries of `CompleteReading` (backend/internal/store/reading.go).
use family_quest.Base.{
  ◌≡◌, refl, ap, ◌∙◌, true, false, String, ℤ, eq_ℤ, eq_ℤ_iff, eq_refl, List, [], ◌∷◌, ◌++◌, any,
  str_eq, Result, ok, err, Option, none, some, arith,
}
use family_quest.Domain.Dates.{Time, family_date}
use family_quest.Domain.ActivityRewards.{ActivityReward}
use family_quest.Domain.Reading.{
  ReadingCompletion, reading_reward, reading_title, validate_completion,
}
use family_quest.Store.Db.{
  Db, ParticipantRow, active_child, earned_stars, insert_activity_reward, may_earn, same_key,
}
use family_quest.Store.Reading.{
  is_completion, award_reading, complete_saved, complete_for, complete_valid, complete_reading,
  saved_reading,
}

active_child_earns :
    (owner : ℤ) (ps : List ParticipantRow) (p : ParticipantRow)
    → active_child owner ps ≡ some p
    → any (may_earn owner) ps ≡ true
unfolding active_child
active_child_earns owner [] p h = ground arith
active_child_earns owner (q ∷ ps) p h = ground (arith, active_child_earns owner ps p)

unsaved :
    (id : String) (owner : ℤ) (rs : List ActivityReward)
    → saved_reading id owner rs ≡ none
    → any (is_completion id owner) rs ≡ false
unfolding saved_reading
unsaved id owner [] h = refl
unsaved id owner (r ∷ rs) h = ground (arith, unsaved id owner rs)

saved_reading-append :
    (id : String) (owner : ℤ) (rs : List ActivityReward) (r : ActivityReward)
    → saved_reading id owner rs ≡ none
    → is_completion id owner r ≡ true
    → saved_reading id owner (rs ++ r ∷ []) ≡ some r
unfolding saved_reading
saved_reading-append id owner [] r h k = rw k refl
saved_reading-append id owner (q ∷ rs) r h k = ground (arith, saved_reading-append id owner rs r)

eq_ℤ_refl : (a : ℤ) → eq_ℤ a a ≡ true
eq_ℤ_refl a = ground (arith, eq_ℤ_iff a a)

inserted :
    (ps : List ParticipantRow) (rs : List ActivityReward) (r : ActivityReward)
    → any (may_earn r.participant_id) ps ≡ true
    → any (same_key r) rs ≡ false
    → insert_activity_reward ps rs r ≡ rs ++ r ∷ []
unfolding insert_activity_reward
inserted ps rs r h k = rw (h, k) refl

module _ (db : Db) (owner : ℤ) (c : ReadingCompletion) where
  -- The completion's reward is stored, for the same people.
  abbrev IsStored : ActivityReward → Db → Type 0
  IsStored r after =
      (saved_reading c.id owner after.activity_rewards ≡ some r)
      × (str_eq r.title (reading_title c) ≡ true)
      × (after.participants ≡ db.participants)

  award_inserted :
      (p : ParticipantRow) (earned : ℤ) (now : Time)
      → active_child owner db.participants ≡ some p
      → saved_reading c.id owner db.activity_rewards ≡ none
      → saved_reading c.id owner (
          insert_activity_reward db.participants db.activity_rewards
            (reading_reward c owner earned now))
        ≡ some (reading_reward c owner earned now)
  unfolding reading_reward
  award_inserted p earned now child new =
      let r = reading_reward c owner earned now in
      let own : is_completion c.id owner r ≡ true = ground (arith, eq_refl c.id, eq_ℤ_refl owner) in
      rw
        (inserted db.participants db.activity_rewards r
          (active_child_earns owner db.participants p child)
          (unsaved c.id owner db.activity_rewards new))
        (saved_reading-append c.id owner db.activity_rewards r new own)

  reading_reward-title :
      (earned : ℤ) (now : Time)
      → str_eq (reading_reward c owner earned now).title (reading_title c) ≡ true
  unfolding reading_reward
  reading_reward-title earned now = eq_refl (reading_title c)

  award_reading-IsStored :
      (p : ParticipantRow) (now : Time) (r : ActivityReward)
      → active_child owner db.participants ≡ some p
      → saved_reading c.id owner db.activity_rewards ≡ none
      → (award_reading db owner c now).1 ≡ ok r
      → IsStored r (award_reading db owner c now).0
  unfolding award_reading
  award_reading-IsStored p now r child new h =
      let earned = earned_stars "reading" owner (family_date now) db.activity_rewards in
      let there = award_inserted p earned now child new in
      let title = reading_reward-title earned now in ground (arith, there, title)

  complete_saved-IsStored :
      (p : ParticipantRow) (now : Time) (r : ActivityReward) (o : Option ActivityReward)
      → active_child owner db.participants ≡ some p
      → saved_reading c.id owner db.activity_rewards ≡ o
      → (complete_saved db owner c now o).1 ≡ ok r
      → IsStored r (complete_saved db owner c now o).0
  unfolding complete_saved
  complete_saved-IsStored p now r none child new h = award_reading-IsStored p now r child new h
  complete_saved-IsStored p now r (some saved) child old h = ground (arith, old)

stored-completes :
    (after : Db) (owner : ℤ) (c : ReadingCompletion) (later : Time) (p : ParticipantRow)
    (r : ActivityReward)
    → validate_completion c ≡ ok tt
    → active_child owner after.participants ≡ some p
    → saved_reading c.id owner after.activity_rewards ≡ some r
    → str_eq r.title (reading_title c) ≡ true
    → complete_reading after owner c later ≡ (after, ok r)
unfolding complete_reading complete_valid complete_for complete_saved
stored-completes after owner c later p r v child saved title = rw (v, child, saved, title) refl

module _ (db : Db) (owner : ℤ) (c : ReadingCompletion) (now later : Time) (r : ActivityReward) where
  complete_for-again :
      (o : Option ParticipantRow)
      → active_child owner db.participants ≡ o
      → validate_completion c ≡ ok tt
      → (complete_for db owner c now o).1 ≡ ok r
      → complete_reading (complete_for db owner c now o).0 owner c later
        ≡ ((complete_for db owner c now o).0, ok r)
  unfolding complete_for
  complete_for-again none child v h = cc
  complete_for-again (some p) child v h =
      let o = saved_reading c.id owner db.activity_rewards in
      let (saved, title, people) = complete_saved-IsStored db owner c p now r o child refl h in
      let still = ap (active_child owner) people ∙ child in
      stored-completes (complete_saved db owner c now o).0 owner c later p r v still saved title

  complete_valid-again :
      (u : Result (Unit {0}))
      → validate_completion c ≡ u
      → (complete_valid u db owner c now).1 ≡ ok r
      → complete_reading (complete_valid u db owner c now).0 owner c later
        ≡ ((complete_valid u db owner c now).0, ok r)
  unfolding complete_valid
  complete_valid-again (err e) v h = cc
  complete_valid-again (ok u) v h = complete_for-again (active_child owner db.participants) refl v h

-- A completion that has been accepted gives the same reward again, and changes nothing, whenever it
-- is sent again: also on another day, whose budget is not looked at.
pub complete_reading_retry :
    (db : Db) (owner : ℤ) (c : ReadingCompletion) (now later : Time) (r : ActivityReward)
    → (complete_reading db owner c now).1 ≡ ok r
    → let after = (complete_reading db owner c now).0 in
      complete_reading after owner c later ≡ (after, ok r)
unfolding complete_reading
complete_reading_retry db owner c now later r h =
    complete_valid-again db owner c now later r (validate_completion c) refl h
