-- ===== src/Family/Command.antt =====
-- `ApplyFamilyCommand` (backend/internal/domain/family.go). The method mutates the card and returns
-- an error: here the card and the error come back together, so that what an error leaves behind is
-- part of the result.
use Prim.Native.String.{count}
use family_quest.Base.{
  Bool, true, false, not, ◌&&◌, ◌||◌, List, [], ◌∷◌, ◌++◌, ℤ, pos, lt_ℤ, le_ℤ, eq_ℤ, ◌+ℤ◌, wrap64,
  pos_part, str_eq, str_lt, mem_ℤ, any, length, get_elem?, trim_space, Error, invalid_input,
  conflict, forbidden, Option, none, some, ltb, leb, if◌then◌else◌,
}
use family_quest.Domain.Dates.{Time, valid_family_date, family_date}
use family_quest.Domain.Principals.{Principal, is_parent, is_family_member}
use family_quest.Family.Entry.{FamilyEntry, FamilyStep, FamilyEvent, FamilyCommand, can_edit}

-- What a branch of the last switch decides: append the event, leave the history as it is (the
-- mark is already there), or refuse.
pub data Verdict : Type 0 where
  record_it already : Verdict
  refuse : Error → Verdict

abbrev verdict_if : Bool → Verdict → Verdict
verdict_if test v = if test then v else Verdict.record_it

abbrev pub same_checkin : FamilyCommand → ℤ → FamilyEvent → Bool
same_checkin cmd actor v =
    str_eq v.kind cmd.action && str_eq v.date cmd.date && eq_ℤ v.actor_id actor

unfoldable pub checkin_verdict : FamilyEntry → Principal → FamilyCommand → Verdict
checkin_verdict e actor cmd =
    if not (str_eq e.kind "habit") && not (str_eq e.kind "value")
    then refuse invalid_input
    else if any (same_checkin cmd actor.participant_id) e.events
    then already
    else record_it

-- A step is somebody else's: it names a participant, who is not the actor.
abbrev others_step : Option FamilyStep → ℤ → Bool
others_step none actor = false
others_step (some step) actor =
    lt_ℤ (pos 0) step.participant_id && not (eq_ℤ step.participant_id actor)

abbrev pub is_step : ℤ → FamilyEvent → Bool
is_step i v = str_eq v.kind "step" && eq_ℤ v.step i

unfoldable pub step_verdict : FamilyEntry → Principal → FamilyCommand → Verdict
step_verdict e actor cmd =
    if (not (str_eq e.kind "adventure") && not (str_eq e.kind "proposal"))
      || lt_ℤ cmd.step (pos 0)
      || le_ℤ (pos (length e.steps)) cmd.step
    then refuse invalid_input
    else if others_step (get_elem? e.steps (pos_part cmd.step)) actor.participant_id
    then refuse forbidden
    else if any (is_step cmd.step) e.events
    then already
    else record_it

abbrev pub is_stage : ℤ → FamilyEvent → Bool
is_stage actor v = str_eq v.kind "stage" && eq_ℤ v.actor_id actor

-- The loop that finds the actor's highest stage.
unfoldable pub last_stage : ℤ → ℤ → List FamilyEvent → ℤ
last_stage actor stage [] = stage
last_stage actor stage (v ∷ vs) =
    last_stage actor (if is_stage actor v && lt_ℤ stage v.step then v.step else stage) vs

unfoldable pub stage_verdict : FamilyEntry → Principal → FamilyCommand → Verdict
unfolding last_stage
stage_verdict e actor cmd =
    if not (str_eq e.kind "skill")
    then refuse invalid_input
    else if (not
          (eq_ℤ cmd.step (wrap64 (last_stage actor.participant_id (pos 0) e.events +ℤ pos 1)))
        || lt_ℤ (pos 4) cmd.step)
    then refuse conflict
    else record_it

abbrev pub is_repeat : ℤ → FamilyEvent → Bool
is_repeat actor v = str_eq v.kind "repeat" && eq_ℤ v.actor_id actor

-- The last switch.
unfoldable pub progress_verdict : FamilyEntry → Principal → FamilyCommand → Verdict
progress_verdict e actor cmd =
    if str_eq cmd.action "checkin"
    then checkin_verdict e actor cmd
    else if str_eq cmd.action "step"
    then step_verdict e actor cmd
    else if str_eq cmd.action "stage"
    then stage_verdict e actor cmd
    else if str_eq cmd.action "reflection"
    then (if str_eq (trim_space cmd.note) "" then refuse invalid_input else record_it)
    else if str_eq cmd.action "repeat"
    then (if any (is_repeat actor.participant_id) e.events then already else record_it)
    else refuse invalid_input

unfoldable pub new_event : Principal → FamilyCommand → Time → FamilyEvent
new_event actor cmd now = record {
  actor_id = actor.participant_id;
  kind = cmd.action;
  date = cmd.date;
  step = cmd.step;
  note = trim_space cmd.note;
  easy = cmd.easy;
  created_at = now;
}

-- The guards between the two switches.
unfoldable pub progress_refusal : FamilyEntry → Principal → FamilyCommand → Time → Option Error
progress_refusal e actor cmd now =
    if e.archived || (str_eq e.kind "proposal" && not e.approved)
    then some conflict
    else if not (valid_family_date cmd.date) || str_lt (family_date now) cmd.date
    then some invalid_input
    else if ltb 2000 (count cmd.note)
    then some invalid_input
    else if leb 10000 (length e.events)
    then some invalid_input
    else if (not (str_eq cmd.action "reflection")
        && not (str_eq cmd.action "repeat")
        && ltb 0 (length e.participant_ids)
        && not (mem_ℤ actor.participant_id e.participant_ids))
    then some forbidden
    else none

unfoldable pub settle : Verdict → FamilyEntry → FamilyEvent → FamilyEntry × Option Error
settle record_it e event = (record e { events = e.events ++ event ∷ [] }, none)
settle already e event = (e, none)
settle (refuse error) e event = (e, some error)

unfoldable pub apply_progress :
    Option Error → FamilyEntry → Principal → FamilyCommand → Time → FamilyEntry × Option Error
apply_progress (some error) e actor cmd now = (e, some error)
apply_progress none e actor cmd now =
    settle (progress_verdict e actor cmd) e (new_event actor cmd now)

-- `archive`, `restore`.
unfoldable pub apply_archive : FamilyEntry → Principal → FamilyCommand → FamilyEntry × Option Error
apply_archive e actor cmd =
    if not (can_edit e actor)
    then (e, some forbidden)
    else (record e { archived = str_eq cmd.action "archive" }, none)

unfoldable pub apply_approve : FamilyEntry → Principal → FamilyEntry × Option Error
apply_approve e actor =
    if not (is_parent actor)
    then (e, some forbidden)
    else if not (str_eq e.kind "proposal") || e.archived
    then (e, some conflict)
    else (record e { approved = true }, none)

abbrev pub is_archiving : FamilyCommand → Bool
is_archiving cmd = str_eq cmd.action "archive" || str_eq cmd.action "restore"

unfoldable pub apply_family_command :
    FamilyEntry → Principal → FamilyCommand → Time → FamilyEntry × Option Error
apply_family_command e actor cmd now =
    if not (is_family_member actor)
    then (e, some forbidden)
    else if not (eq_ℤ cmd.version e.version)
    then (e, some conflict)
    else if is_archiving cmd
    then apply_archive e actor cmd
    else if str_eq cmd.action "approve"
    then apply_approve e actor
    else apply_progress (progress_refusal e actor cmd now) e actor cmd now
