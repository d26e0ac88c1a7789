-- ===== src/Application/Cards.antt =====
-- Cards (backend/internal/application/family.go, and `GetParticipant` of
-- backend/internal/store/store.go).
use family_quest.Base.{
  Bool, true, false, not, ◌&&◌, ◌||◌, List, [], ◌∷◌, ◌++◌, String, ℤ, pos, lt_ℤ, eq_ℤ, str_eq,
  str_lt, all, length, ltb, trim_space, Error, Result, ok, err, invalid_input, conflict, forbidden,
  fail_if, ◌>>◌, Option, none, some, if◌then◌else◌,
}
use family_quest.Domain.Dates.{family_date}
use family_quest.Domain.Principals.{Principal, is_parent, is_family_member}
use family_quest.Family.Entry.{
  FamilyEntry, FamilyDraft, FamilyStep, FamilyCommand, can_edit, sole_participant,
}
use family_quest.Family.Validate.{validate}
use family_quest.Family.Command.{apply_family_command}
use family_quest.Store.Db.{Db, ParticipantRow}
use family_quest.Store.FamilyEntries.{save_family_entry, get_family_entry}
use family_quest.Application.Access.{
  Service, Mutation, interactive_mutation, family_progress, writable, other_family,
}

-- Go's zero values.
abbrev pub no_draft : FamilyDraft
no_draft = record {
  sport = none;
  title = "";
  description = "";
  date = "";
  participant_ids = [];
  steps = [];
  weekdays = [];
  reminder = "";
  easy_version = "";
  value = "";
  agreement = "";
  next_activity = "";
  photo = "";
  audio = "";
}

abbrev pub no_entry : FamilyEntry
no_entry = record {
  id = pos 0;
  version = pos 0;
  kind = "";
  author_id = pos 0;
  created_at = 0;
  updated_at = 0;
  archived = false;
  approved = false;
  draft = no_draft;
  events = [];
}

-- `GetParticipant`: only an active one is found.
unfoldable pub get_participant : ℤ → List ParticipantRow → Option ParticipantRow
get_participant id [] = none
get_participant id (p ∷ ps) = if eq_ℤ p.id id && p.active then some p else get_participant id ps

abbrev pub principal_of : ParticipantRow → Principal
principal_of p = record {
  mcp_grant_id = "";
  mcp_read_only = false;
  family_id = pos 0;
  device_id = "";
  confirmed_until = pos 0;
  session_version = pos 0;
  participant_id = p.id;
  role = p.role;
}

unfoldable pub may_take_part : Option ParticipantRow → Bool
may_take_part none = false
may_take_part (some p) = p.active && is_family_member (principal_of p)

abbrev pub takes_part : List ParticipantRow → ℤ → Bool
takes_part people id = may_take_part (get_participant id people)

abbrev pub step_ids : List FamilyStep → List ℤ
step_ids [] = []
step_ids (step ∷ steps) =
    let rest = step_ids steps in
    if lt_ℤ (pos 0) step.participant_id then step.participant_id ∷ rest else rest

unfoldable pub validate_family_participants : Service → Db → FamilyEntry → Result (Unit {0})
validate_family_participants s db e = do
  fail_if (str_eq e.kind "sport" && str_lt (family_date s.now) e.date) invalid_input
  validate e
  fail_if (not (all (takes_part db.participants) (e.participant_ids ++ step_ids e.steps)))
      invalid_input

-- The guards that the three operations share.
unfoldable pub allowed : Service → Principal → Mutation → Result (Unit {0})
allowed s p action = do
  writable s p action
  fail_if (other_family s p) forbidden
  fail_if (not (is_family_member p)) forbidden

-- A child's sport card is the child's own.
abbrev pub others_sport : FamilyEntry → Principal → Bool
others_sport e p =
    str_eq e.kind "sport"
    && not (is_parent p)
    && not (sole_participant e.participant_ids p.participant_id)

unfoldable pub save_valid : Service → Db → FamilyEntry → Result (Unit {0}) → Db × Result FamilyEntry
save_valid s db e (err x) = (db, err x)
save_valid s db e (ok u) = save_family_entry db no_entry e s.now

-- The end of `CreateFamilyEntry` and of `EditFamilyEntry`.
unfoldable pub save_checked : Service → Db → Principal → FamilyEntry → Db × Result FamilyEntry
save_checked s db p e =
    if others_sport e p
    then (db, err forbidden)
    else save_valid s db e (validate_family_participants s db e)

unfoldable pub new_entry : Principal → String → FamilyDraft → FamilyEntry
new_entry p kind draft = record no_entry {
  kind = if not (is_parent p) && str_eq kind "adventure" then "proposal" else kind;
  author_id = p.participant_id;
  draft = record draft { title = trim_space draft.title };
}

unfoldable pub create_allowed :
    Service → Db → Principal → String → FamilyDraft → Result (Unit {0}) → Db × Result FamilyEntry
create_allowed s db p kind draft (err x) = (db, err x)
create_allowed s db p kind draft (ok u) = save_checked s db p (new_entry p kind draft)

-- `CreateFamilyEntry`.
unfoldable pub create_family_entry :
    Service → Db → Principal → String → FamilyDraft → Db × Result FamilyEntry
create_family_entry s db p kind draft =
    create_allowed s db p kind draft (allowed s p interactive_mutation)

abbrev pub same_step : FamilyStep → FamilyStep → Bool
same_step a b = str_eq a.title b.title && eq_ℤ a.participant_id b.participant_id

unfoldable pub same_steps : List FamilyStep → List FamilyStep → Bool
same_steps [] [] = true
same_steps (a ∷ as_stored) (b ∷ as_sent) = same_step a b && same_steps as_stored as_sent
same_steps _ _ = false

unfoldable pub edited : Principal → FamilyEntry → FamilyDraft → FamilyEntry
edited p e draft = record e {
  draft = record draft { title = trim_space draft.title };
  approved = if str_eq e.kind "proposal" && not (is_parent p) then false else e.approved;
}

unfoldable pub edit_found :
    Service → Db → Principal → ℤ → FamilyDraft → Result FamilyEntry → Db × Result FamilyEntry
edit_found s db p version draft (err x) = (db, err x)
edit_found s db p version draft (ok e) =
    if not (can_edit e p)
    then (db, err forbidden)
    else if not (eq_ℤ e.version version) || e.archived
    then (db, err conflict)
    else if ltb 0 (length e.events) && not (same_steps e.steps draft.steps)
    then (db, err conflict)
    else save_checked s db p (edited p e draft)

unfoldable pub edit_allowed :
    Service → Db → Principal → ℤ → ℤ → FamilyDraft → Result (Unit {0}) → Db × Result FamilyEntry
edit_allowed s db p id version draft (err x) = (db, err x)
edit_allowed s db p id version draft (ok u) =
    edit_found s db p version draft (get_family_entry db id)

-- `EditFamilyEntry`.
unfoldable pub edit_family_entry :
    Service → Db → Principal → ℤ → ℤ → FamilyDraft → Db × Result FamilyEntry
edit_family_entry s db p id version draft =
    edit_allowed s db p id version draft (allowed s p interactive_mutation)

-- What an agent may not ask for.
abbrev pub beyond_grant : Principal → FamilyCommand → Bool
beyond_grant p cmd =
    not (str_eq p.mcp_grant_id "")
    && not (str_eq cmd.action "checkin")
    && not (str_eq cmd.action "step")
    && not (str_eq cmd.action "stage")

unfoldable pub save_applied : Service → Db → FamilyEntry × Option Error → Db × Result FamilyEntry
save_applied s db (e, some x) = (db, err x)
save_applied s db (e, none) = save_family_entry db no_entry e s.now

unfoldable pub act_found :
    Service → Db → Principal → FamilyCommand → Result FamilyEntry → Db × Result FamilyEntry
act_found s db p cmd (err x) = (db, err x)
act_found s db p cmd (ok e) = save_applied s db (apply_family_command e p cmd s.now)

unfoldable pub act_allowed :
    Service → Db → Principal → ℤ → FamilyCommand → Result (Unit {0}) → Db × Result FamilyEntry
act_allowed s db p id cmd (err x) = (db, err x)
act_allowed s db p id cmd (ok u) =
    if beyond_grant p cmd
    then (db, err forbidden)
    else act_found s db p cmd (get_family_entry db id)

-- `FamilyAction`.
unfoldable pub family_action :
    Service → Db → Principal → ℤ → FamilyCommand → Db × Result FamilyEntry
family_action s db p id cmd = act_allowed s db p id cmd (allowed s p family_progress)
