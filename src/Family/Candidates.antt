-- ===== src/Family/Candidates.antt =====
-- `FamilyRewardCandidates` (backend/internal/domain/activity_reward.go).
use family_quest.Base.{
  ℕ, suc, Bool, true, not, ◌&&◌, ◌||◌, List, [], ◌∷◌, ◌++◌, map, String, ℤ, pos, eq_ℤ, str_eq,
  str_lt, mem_ℤ, any, length, drop, Option, none, some, leb, if◌then◌else◌, format_int, ◌&◌,
}
use family_quest.Domain.Dates.{Date, parse_date, weekday}
use family_quest.Domain.ActivityRewards.{ActivityReward}
use family_quest.Family.Entry.{FamilyEntry, FamilyStep, FamilyEvent}
use family_quest.Family.Command.{is_step}

-- The weekday of a parsed date; what does not parse stands for the zero time, a Monday.
unfoldable pub weekday_of : Option Date → ℤ
weekday_of none = pos 1
weekday_of (some d) = pos (weekday d)

-- A check-in earns its reward on the habit's days, from its first date on.
unfoldable pub habit_earns : FamilyEntry → FamilyEvent → Bool
unfolding weekday_of
habit_earns after v =
    str_eq v.kind "checkin"
    && (str_eq after.date "" || not (str_lt v.date after.date))
    && mem_ℤ (weekday_of (parse_date v.date)) after.weekdays

unfoldable pub habit_reward : FamilyEntry → FamilyEvent → ActivityReward
habit_reward after v = record {
  source = "habit";
  source_key = format_int after.id & ":" & v.date;
  participant_id = v.actor_id;
  date = v.date;
  stars = pos 5;
  smiles = pos 1;
  title = after.title;
}

unfoldable pub habit_rewards : FamilyEntry → List FamilyEvent → List ActivityReward
habit_rewards after [] = []
habit_rewards after (v ∷ vs) =
    let rest = habit_rewards after vs in
    if habit_earns after v then habit_reward after v ∷ rest else rest

-- The closure `complete`: every step of the plan has an event, and there is a step.
unfoldable pub steps_done : ℕ → List FamilyStep → List FamilyEvent → Bool
steps_done i [] events = true
steps_done i (s ∷ ss) events = any (is_step (pos i)) events && steps_done (suc i) ss events

unfoldable pub plan_done : List FamilyStep → List FamilyEvent → Bool
plan_done steps events = not (leb (length steps) 0) && steps_done 0 steps events

unfoldable pub complete : FamilyEntry → Bool
complete e = plan_done e.steps e.events

-- The loop over the steps' events: who took part, where the plan names nobody, and the last date.
unfoldable pub gather : Bool → List ℤ → String → List FamilyEvent → List ℤ × String
gather open_plan ids date [] = (ids, date)
gather open_plan ids date (v ∷ vs) =
    gather open_plan
      (if str_eq v.kind "step" && open_plan && not (mem_ℤ v.actor_id ids)
        then ids ++ v.actor_id ∷ []
        else ids)
      (if str_eq v.kind "step" && str_lt date v.date then v.date else date) vs

unfoldable pub adventure_reward : FamilyEntry → String → ℤ → ActivityReward
adventure_reward after date id = record {
  source = "adventure";
  source_key = format_int after.id;
  participant_id = id;
  date = date;
  stars = pos 40;
  smiles = pos 3;
  title = after.title;
}

unfoldable pub adventure_rewards : FamilyEntry → List ActivityReward
unfolding gather
adventure_rewards after =
    let (ids, date) =
      gather (leb (length after.participant_ids) 0) after.participant_ids "" after.events in
    map (adventure_reward after date) ids

unfoldable pub sport_rewards : FamilyEntry → List ℤ → List ActivityReward
sport_rewards after (id ∷ []) =
    record {
      source = "sport";
      source_key = after.date;
      participant_id = id;
      date = after.date;
      stars = pos 30;
      smiles = pos 2;
      title = after.title;
    }
    ∷ []
sport_rewards after _ = []

unfoldable pub family_reward_candidates : FamilyEntry → FamilyEntry → List ActivityReward
family_reward_candidates before after =
    if after.archived
    then []
    else ((if str_eq after.kind "sport" && eq_ℤ before.id (pos 0)
          then sport_rewards after after.participant_ids
          else [])
        ++ ((if str_eq after.kind "habit" && leb (length before.events) (length after.events)
              then habit_rewards after (drop (length before.events) after.events)
              else [])
            ++ (if ((str_eq after.kind "adventure"
                    || (str_eq after.kind "proposal" && after.approved))
                  && not (complete before)
                  && complete after)
                then adventure_rewards after
                else [])))
