-- ===== src/Domain/Priced.antt =====
-- Prices of normalised rewards (`NormalizeReward`, backend/internal/domain/validation.go).
use family_quest.Base.{
  ◌≡◌, refl, false, some, invalid_input, not, String, trim_space, Bool, true, ◌&&◌, pos, lt_ℤ, eq_ℤ,
  str_eq, str_eq_excludes, none, if◌then◌else◌, arith,
}
use family_quest.Domain.Validation.{Reward, or_default, valid_reward, normalize_reward}

-- A reward for stars costs stars only, one for smiles smiles only, and the champion's costs nothing.
abbrev pub is_priced : Reward → Bool
is_priced r =
    if str_eq r.reward_type "stars"
    then lt_ℤ (pos 0) r.star_cost && eq_ℤ r.smile_cost (pos 0)
    else if str_eq r.reward_type "smiles"
    then eq_ℤ r.star_cost (pos 0) && lt_ℤ (pos 0) r.smile_cost
    else str_eq r.reward_type "champion" && eq_ℤ r.star_cost (pos 0) && eq_ℤ r.smile_cost (pos 0)

priced_as :
    (g : Reward) (kind : String)
    → valid_reward (record g {
      reward_type = kind;
      star_cost = if not (str_eq kind "stars") then pos 0 else g.star_cost;
      smile_cost = if not (str_eq kind "smiles") then pos 0 else g.smile_cost;
    })
      ≡ true
    → is_priced (record g {
      reward_type = kind;
      star_cost = if not (str_eq kind "stars") then pos 0 else g.star_cost;
      smile_cost = if not (str_eq kind "smiles") then pos 0 else g.smile_cost;
    })
      ≡ true
unfolding valid_reward
priced_as g kind h = ground (arith, str_eq_excludes kind "stars" "smiles" refl)

accepted : (b : Bool) → (if b then none else some invalid_input) ≡ none → b ≡ true
accepted true h = refl
accepted false h = cc

-- A reward that normalisation accepts is for stars and costs stars only, for smiles and costs smiles
-- only, or the champion's and costs nothing.
pub normalize_reward-is_priced :
    (given : Reward)
    → (normalize_reward given).1 ≡ none
    → is_priced (normalize_reward given).0 ≡ true
unfolding normalize_reward
normalize_reward-is_priced given h =
    let kind = or_default given.reward_type "champion" in
    let g : Reward = record given {
      title = trim_space given.title;
      period = or_default given.period "week";
    } in
    priced_as g kind (accepted (valid_reward (normalize_reward given).0) h)
