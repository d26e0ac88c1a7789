-- ===== src/Examples/Cards.antt =====
-- The theorems on cards at concrete cards (backend/internal/domain/family.go).
use family_quest.Base.{
  ◌≡◌, ◌≢◌, refl, inl, inr, true, [], ◌∷◌, pos, is_space, trim_left, is_empty, trim_right,
  trim_space, codes_lt, ok, none, arith,
}
use family_quest.Domain.Principals.{is_family_member}
use family_quest.Family.Media.{validate_family_media, valid_media}
use family_quest.Family.Validate.{
  validate, validate_sport, valid_texts, valid_sizes, valid_plan, valid_step, distinct_participants,
  distinct_weekdays, valid_attachments, valid_history,
}
use family_quest.Family.Command.{
  progress_refusal, progress_verdict, step_verdict, new_event, settle, apply_progress,
  apply_family_command,
}
use family_quest.Family.Candidates.{
  family_reward_candidates, complete, plan_done, steps_done, adventure_rewards, gather,
  adventure_reward,
}
use family_quest.Family.Outcomes.{here, next, Outcome, apply_family_command-Outcome}
use family_quest.Family.Valid.{apply_family_command-validate}
use family_quest.Family.Retry.{apply_family_command_retry}
use family_quest.Family.Stages.{IsLadder, Follows-IsLadder}
use family_quest.Family.Awards.{family_reward_candidates-nil, earned_once}
use family_quest.Examples.Data.{noon, evening, mother, son, card, command, noon_date, card_date}

validate-card : validate (card "adventure") ≡ ok tt
unfolding validate validate_sport valid_texts valid_sizes valid_plan valid_step valid_attachments
    valid_history distinct_participants distinct_weekdays validate_family_media valid_media
    trim_space trim_left trim_right is_empty is_space
validate-card = rw card_date refl

apply_family_command-validate_example :
    validate (apply_family_command (card "adventure") son (command "step" (pos 0)) noon).0 ≡ ok tt
apply_family_command-validate_example =
    apply_family_command-validate (card "adventure") son (command "step" (pos 0)) noon
      (λ h. ground (arith, h)) validate-card

-- The son takes the step of the plan.
step_taken : apply_family_command (card "adventure") son (command "step" (pos 0)) noon ≡ (
  record (card "adventure") { events = new_event son (command "step" (pos 0)) noon ∷ [] },
  none,
)
unfolding apply_family_command apply_progress progress_refusal progress_verdict step_verdict settle
    is_family_member codes_lt
step_taken = rw (card_date, noon_date) refl

step_accepted : (apply_family_command (card "adventure") son (command "step" (pos 0)) noon).1 ≡ none
step_accepted = rw step_taken refl

apply_family_command_retry_example :
    (apply_family_command
      (apply_family_command (card "adventure") son (command "step" (pos 0)) noon).0
      son
      (command "step" (pos 0))
      evening).0
    ≡ (apply_family_command (card "adventure") son (command "step" (pos 0)) noon).0
apply_family_command_retry_example =
    apply_family_command_retry (card "adventure") son (command "step" (pos 0)) noon evening
      (inr (inl refl)) step_accepted

Follows-IsLadder_example :
    IsLadder
      (pos 2)
      (apply_family_command
        (apply_family_command (card "skill") son (command "stage" (pos 1)) noon).0
        son
        (command "stage" (pos 2))
        evening).0.events
Follows-IsLadder_example =
    Follows-IsLadder (pos 2)
      (next (next here son (command "stage" (pos 1)) noon) son (command "stage" (pos 2)) evening)
      (0, omega arith, refl)

apply_family_command-Outcome_example :
    Outcome
      (card "habit")
      son
      (command "checkin" (pos 0))
      noon
      (apply_family_command (card "habit") son (command "checkin" (pos 0)) noon)
apply_family_command-Outcome_example =
    apply_family_command-Outcome (card "habit") son (command "checkin" (pos 0)) noon

pub stored_card : pos 7 ≢ pos 0
stored_card h = ground (arith, h)

family_reward_candidates-nil_example :
    family_reward_candidates (card "adventure") (record (card "adventure") { archived = true }) ≡ []
family_reward_candidates-nil_example =
    family_reward_candidates-nil (card "adventure") (record (card "adventure") { archived = true })
      stored_card (inl refl) refl

-- The step completes the plan and earns the reward of the adventure.
step_earns :
    family_reward_candidates
      (card "adventure")
      (apply_family_command (card "adventure") son (command "step" (pos 0)) noon).0
    ≢ []
unfolding family_reward_candidates complete plan_done steps_done adventure_rewards gather
    adventure_reward new_event trim_space trim_left trim_right is_empty is_space
step_earns = rw step_taken (λ h. ground (arith, h))

earned_once_example :
    family_reward_candidates
      (apply_family_command
        (apply_family_command (card "adventure") son (command "step" (pos 0)) noon).0
        mother
        (command "archive" (pos 0))
        evening).0
      (apply_family_command
        (apply_family_command
          (apply_family_command (card "adventure") son (command "step" (pos 0)) noon).0
          mother
          (command "archive" (pos 0))
          evening).0
        mother
        (command "restore" (pos 0))
        evening).0
    ≡ []
earned_once_example =
    earned_once (card "adventure")
      (apply_family_command
        (apply_family_command (card "adventure") son (command "step" (pos 0)) noon).0 mother
        (command "archive" (pos 0)) evening).0
      son mother (command "step" (pos 0)) (command "restore" (pos 0)) noon evening stored_card refl
      step_earns (next here mother (command "archive" (pos 0)) evening)
