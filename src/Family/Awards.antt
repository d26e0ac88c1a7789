-- ===== src/Family/Awards.antt =====
-- What earns a reward (`FamilyRewardCandidates`, backend/internal/domain/activity_reward.go).
use family_quest.Base.{
  ℕ, suc, ◌≡◌, ◌≢◌, refl, ◌⊎◌, inl, inr, true, false, List, [], ◌∷◌, ◌++◌, pos, eq_ℤ_iff, ap, sym,
  ◌∙◌, str_eq, any-append_end, length, drop, drop-length, Option, Error, arith,
}
use family_quest.Domain.Dates.{Time}
use family_quest.Domain.Principals.{Principal}
use family_quest.Family.Entry.{FamilyEntry, FamilyStep, FamilyEvent, FamilyCommand}
use family_quest.Family.Command.{new_event, is_step, apply_family_command}
use family_quest.Family.Candidates.{
  steps_done, plan_done, complete, habit_rewards, family_reward_candidates,
}
use family_quest.Family.Outcomes.{
  Outcome, refused, repeated, recorded, shelved, agreed, apply_family_command-Outcome, Follows,
  here, next,
}

-- The plan is fixed once there is history, as `EditFamilyEntry` demands.
abbrev pub PlanKept : FamilyEntry → FamilyEntry → Type 0
PlanKept before after = (after.steps ≡ before.steps) ⊎ (before.events ≡ [])

plan_done-nil : (ss : List FamilyStep) → plan_done ss [] ≡ false
unfolding plan_done steps_done
plan_done-nil [] = refl
plan_done-nil (s ∷ ss) = ground arith

complete_kept :
    (before after : FamilyEntry)
    → PlanKept before after
    → after.events ≡ before.events
    → complete after ≡ complete before
unfolding complete
complete_kept before after (inl same) h = cc
complete_kept before after (inr new) h = cc (plan_done-nil before.steps, plan_done-nil after.steps)

no_new_habit :
    (before after : FamilyEntry)
    → after.events ≡ before.events
    → habit_rewards after (drop (length before.events) after.events) ≡ []
unfolding habit_rewards
no_new_habit before after h =
    ap (λ (events : List FamilyEvent). habit_rewards after (drop (length before.events) events)) h
    ∙ ap (habit_rewards after) (drop-length before.events)

-- Saving a stored card with no new event earns nothing, where the plan is the same or there was no
-- history: neither edits, nor archiving, restoring or approving, pay for progress that was there
-- before.
pub family_reward_candidates-nil :
    (before after : FamilyEntry)
    → before.id ≢ pos 0
    → PlanKept before after
    → after.events ≡ before.events
    → family_reward_candidates before after ≡ []
unfolding family_reward_candidates
family_reward_candidates-nil before after stored plan h = ground (
  arith,
  eq_ℤ_iff before.id (pos 0),
  complete_kept before after plan h,
  no_new_habit before after h,
)

steps_done-append :
    (i : ℕ) (ss : List FamilyStep) (vs : List FamilyEvent) (v : FamilyEvent)
    → steps_done i ss vs ≡ true
    → steps_done i ss (vs ++ v ∷ []) ≡ true
unfolding steps_done
steps_done-append i [] vs v h = refl
steps_done-append i (s ∷ ss) vs v h =
    ground (arith, any-append_end (is_step (pos i)) vs v, steps_done-append (suc i) ss vs v)

plan_done-append :
    (ss : List FamilyStep) (vs : List FamilyEvent) (v : FamilyEvent)
    → plan_done ss vs ≡ true
    → plan_done ss (vs ++ v ∷ []) ≡ true
unfolding plan_done
plan_done-append ss vs v h = ground (arith, steps_done-append 0 ss vs v)

-- What a command leaves of a card's identity, with the history growing.
record Grows (e e' : FamilyEntry) : Type 0 where
  same_id : e'.id ≡ e.id
  same_kind : e'.kind ≡ e.kind
  done : complete e ≡ true → complete e' ≡ true

Outcome-Grows :
    {e : FamilyEntry} {actor : Principal} {cmd : FamilyCommand} {now : Time}
    {r : FamilyEntry × Option Error}
    → Outcome e actor cmd now r
    → Grows e r.0
unfolding complete
Outcome-Grows (refused x) = record { same_id = refl; same_kind = refl; done = λ h. h }
Outcome-Grows (repeated a v) = record { same_id = refl; same_kind = refl; done = λ h. h }
Outcome-Grows {e} {actor} {cmd} {now} (recorded a v) = record {
  same_id = refl;
  same_kind = refl;
  done = plan_done-append e.steps e.events (new_event actor cmd now);
}
Outcome-Grows (shelved m c a) = record { same_id = refl; same_kind = refl; done = λ h. h }
Outcome-Grows (agreed p a k l) = record { same_id = refl; same_kind = refl; done = λ h. h }

Follows-Grows : {e e' : FamilyEntry} → Follows e e' → Grows e e'
Follows-Grows here = record { same_id = refl; same_kind = refl; done = λ h. h }
Follows-Grows (next {e'} f actor cmd now) =
    let before = Follows-Grows f in
    let after = Outcome-Grows (apply_family_command-Outcome e' actor cmd now) in
    record {
      same_id = after.same_id ∙ before.same_id;
      same_kind = after.same_kind ∙ before.same_kind;
      done = λ h. after.done (before.done h);
    }

module _ (before after : FamilyEntry) (stored : before.id ≢ pos 0) (g : Grows before after)
    (plan : str_eq before.kind "habit" ≡ false) where
  earned_complete : family_reward_candidates before after ≢ [] → complete after ≡ true
  unfolding family_reward_candidates
  earned_complete h = ground (arith, eq_ℤ_iff before.id (pos 0), g.same_kind)

  complete_earns_nothing : complete before ≡ true → family_reward_candidates before after ≡ []
  unfolding family_reward_candidates
  complete_earns_nothing h = ground (arith, eq_ℤ_iff before.id (pos 0), g.same_kind)

-- Of a stored card that is no habit, at most one command in any history earns rewards: after the
-- one that did, and whatever other commands came between, no command earns any.
pub earned_once :
    (e e' : FamilyEntry) (actor actor' : Principal) (cmd cmd' : FamilyCommand) (now now' : Time)
    → e.id ≢ pos 0
    → str_eq e.kind "habit" ≡ false
    → family_reward_candidates e (apply_family_command e actor cmd now).0 ≢ []
    → Follows (apply_family_command e actor cmd now).0 e'
    → family_reward_candidates e' (apply_family_command e' actor' cmd' now').0 ≡ []
earned_once e e' actor actor' cmd cmd' now now' stored plan earned f =
    let first = Outcome-Grows (apply_family_command-Outcome e actor cmd now) in
    let later = Follows-Grows f in
    let last = Outcome-Grows (apply_family_command-Outcome e' actor' cmd' now') in
    complete_earns_nothing e' (apply_family_command e' actor' cmd' now').0
      (λ h. stored (sym (later.same_id ∙ first.same_id) ∙ h)) last
      (rw (later.same_kind, first.same_kind) plan)
      (later.done
        (earned_complete e (apply_family_command e actor cmd now).0 stored first plan earned))
