-- ===== src/Store/Ledger.antt =====
-- The ledger of rewards and its daily budgets (`insertActivityReward` and the sums of
-- backend/internal/store/learning.go and reading.go).
use family_quest.Base.{
  ℕ, ◌≡◌, inl, inr, Bool, true, List, [], ◌∷◌, ◌++◌, String, ℤ, pos, ◌≤ℤ◌, ◌+ℤ◌, zero-+ℤ, +ℤ-zero,
  +ℤ_assoc, +ℤ_parts, le_ℤ, eq_ℤ_iff, eq_iff, all, all-append_end, arith, Bool-cases, if◌then◌else◌,
}
use family_quest.Domain.ActivityRewards.{ActivityReward}
use family_quest.Store.Db.{ParticipantRow, insert_activity_reward, earned_stars, earns_on}

abbrev pub no_debt : ActivityReward → Bool
no_debt r = le_ℤ (pos 0) r.stars

-- No reward takes stars away, and no participant has more stars from a source on a day than are
-- given there.
pub record IsBudgeted (source : String) (most : ℕ) (rewards : List ActivityReward) : Type 0 where
  pub gains : all no_debt rewards ≡ true
  pub within : (who : ℤ) (date : String) → earned_stars source who date rewards ≤ℤ pos most

pub earned_stars_nonneg :
    (source : String) (who : ℤ) (date : String) (rs : List ActivityReward)
    → all no_debt rs ≡ true
    → pos 0 ≤ℤ earned_stars source who date rs
unfolding earned_stars ◌+ℤ◌
earned_stars_nonneg source who date [] h = omega arith
earned_stars_nonneg source who date (r ∷ rs) h =
    ground (arith, earned_stars_nonneg source who date rs)

pub earned_stars-append :
    (source : String) (who : ℤ) (date : String) (rs : List ActivityReward) (r : ActivityReward)
    → earned_stars source who date (rs ++ r ∷ [])
      ≡ earned_stars source who date rs +ℤ (if earns_on source who date r then r.stars else pos 0)
unfolding earned_stars
earned_stars-append source who date [] r =
    ground (arith, zero-+ℤ (if earns_on source who date r then r.stars else pos 0), +ℤ-zero r.stars)
earned_stars-append source who date (q ∷ rs) r = ground (
  arith,
  earned_stars-append source who date rs r,
  +ℤ_assoc q.stars (earned_stars source who date rs)
      (if earns_on source who date r then r.stars else pos 0),
)

-- An insertion adds the reward's stars to one day of one participant, or does nothing.
pub earned_stars-insert :
    (source : String) (ps : List ParticipantRow) (who : ℤ) (date : String)
    (rs : List ActivityReward) (r : ActivityReward)
    → pos 0 ≤ℤ r.stars
    → (earned_stars source who date (insert_activity_reward ps rs r)
        ≤ℤ earned_stars source who date rs
          +ℤ (if earns_on source who date r then r.stars else pos 0))
unfolding insert_activity_reward
earned_stars-insert source ps who date rs r h = ground (
  arith,
  earned_stars-append source who date rs r,
  +ℤ_parts (earned_stars source who date rs)
      (if earns_on source who date r then r.stars else pos 0),
)

module _ (source : String) (most : ℕ) (ps : List ParticipantRow) (rs : List ActivityReward)
    (r : ActivityReward) where
  insert_gains :
      all no_debt rs ≡ true → pos 0 ≤ℤ r.stars → all no_debt (insert_activity_reward ps rs r) ≡ true
  unfolding insert_activity_reward
  insert_gains h lo = ground (arith, all-append_end no_debt rs r)

  same_day :
      (who : ℤ) (date : String)
      → earns_on source who date r ≡ true
      → earned_stars source r.participant_id r.date rs ≡ earned_stars source who date rs
  same_day who date h =
      let owner : r.participant_id ≡ who = ground (arith, eq_ℤ_iff r.participant_id who) in
      let day : r.date ≡ date = ground (arith, eq_iff r.date date) in cc

  pub insert-IsBudgeted :
      IsBudgeted source most rs
      → pos 0 ≤ℤ r.stars
      → (earned_stars source r.participant_id r.date rs +ℤ r.stars ≤ℤ pos most)
      → IsBudgeted source most (insert_activity_reward ps rs r)
  insert-IsBudgeted b lo hi = record {
    gains = insert_gains b.gains lo;
    within = λ who date. elim (Bool-cases (earns_on source who date r)) [
      | inl mine ↦
          ground (
            arith,
            mine,
            same_day who date mine,
            earned_stars-insert source ps who date rs r lo,
            hi,
          )
      | inr others ↦ ground (
        arith,
        others,
        b.within who date,
        +ℤ-zero (earned_stars source who date rs),
        earned_stars-insert source ps who date rs r lo,
      )
    ];
  }
