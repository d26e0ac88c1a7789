-- ===== src/Domain/Validation.antt =====
-- Validation of ratings, chores and rewards (backend/internal/domain/validation.go).
use family_quest.Base.{
  Bool, not, ◌&&◌, ◌||◌, List, [], ◌∷◌, String, ℤ, pos, lt_ℤ, le_ℤ, str_eq, one_of, all, trim_space,
  Result, ok, err, Error, invalid_input, invalid_rating, Option, none, some, if◌then◌else◌,
}
use family_quest.Domain.Dates.{Time}

unfoldable pub validate_rating : ℤ → Result (Unit {0})
validate_rating rating =
    if lt_ℤ rating (pos 1) || lt_ℤ (pos 5) rating then err invalid_rating else ok tt

pub record Chore : Type 0 where
  pub id : ℤ
  pub title : String
  pub description : String
  pub schedule : String
  pub time_window : String
  pub benefit_type : String
  pub execution_mode : String
  pub base_value : ℤ
  pub participant_ids : List ℤ
  pub participant_names : List String
  pub active : Bool
  pub created_at : Time

pub record Reward : Type 0 where
  pub id : ℤ
  pub title : String
  pub description : String
  pub period : String
  pub reward_type : String
  pub star_cost : ℤ
  pub smile_cost : ℤ
  pub participant_ids : List ℤ
  pub participant_names : List String
  pub active : Bool
  pub created_at : Time

unfoldable pub valid_ids : List ℤ → Bool
valid_ids ids = all (λ id. lt_ℤ (pos 0) id) ids

-- An empty choice takes its default.
abbrev pub or_default : String → String → String
or_default value default = if str_eq value "" then default else value

unfoldable pub valid_chore : Chore → Bool
unfolding valid_ids
valid_chore c = not (
    str_eq c.title ""
    || le_ℤ c.base_value (pos 0)
    || not (one_of c.schedule ("once" ∷ "daily" ∷ "weekly" ∷ "monthly" ∷ []))
    || not (one_of c.time_window ("" ∷ "morning" ∷ "day" ∷ "evening" ∷ []))
    || not (one_of c.benefit_type ("self" ∷ "family" ∷ "care" ∷ "home" ∷ []))
    || not (one_of c.execution_mode ("assigned" ∷ "together" ∷ "adult_child" ∷ "anyone" ∷ []))
    || not (valid_ids c.participant_ids))

-- Both results of the source come back: the normalised value also when there is an error.
unfoldable pub normalize_chore : Chore → Chore × Option Error
unfolding valid_chore
normalize_chore given =
    let c = record given {
      title = trim_space given.title;
      benefit_type = or_default given.benefit_type "self";
      execution_mode = or_default given.execution_mode "assigned";
    } in
    (c, if valid_chore c then none else some invalid_input)

unfoldable pub valid_reward : Reward → Bool
unfolding valid_ids
valid_reward r = not (
    str_eq r.title ""
    || not (one_of r.period ("day" ∷ "week" ∷ "month" ∷ []))
    || not (one_of r.reward_type ("champion" ∷ "stars" ∷ "smiles" ∷ []))
    || (str_eq r.reward_type "stars" && le_ℤ r.star_cost (pos 0))
    || (str_eq r.reward_type "smiles" && le_ℤ r.smile_cost (pos 0))
    || not (valid_ids r.participant_ids))

unfoldable pub normalize_reward : Reward → Reward × Option Error
unfolding valid_reward
normalize_reward given =
    let kind = or_default given.reward_type "champion" in
    let r = record given {
      title = trim_space given.title;
      period = or_default given.period "week";
      reward_type = kind;
      star_cost = if not (str_eq kind "stars") then pos 0 else given.star_cost;
      smile_cost = if not (str_eq kind "smiles") then pos 0 else given.smile_cost;
    } in
    (r, if valid_reward r then none else some invalid_input)
