-- ===== src/Application/Backup.antt =====
-- The archive of a family (backend/internal/application/backup.go), and the check of its cards
-- (family_backup.go).
use family_quest.Base.{
  Bool, false, not, ◌&&◌, ◌||◌, List, [], ◌∷◌, String, ℤ, pos, le_ℤ, eq_ℤ, str_eq, any, mem_ℤ, ◌==◌,
  Result, ok, invalid_input, fail_if, ◌>>◌, Option, if◌then◌else◌,
}
use family_quest.Domain.Dates.{Time}
use family_quest.Domain.Principals.{validate_role, validate_pin, role_parent}
use family_quest.Domain.Profile.{LearningProfile, validate_profile}
use family_quest.Domain.ActivityRewards.{ActivityReward}
use family_quest.Family.Entry.{FamilyEntry, FamilyStep, FamilyEvent}
use family_quest.Family.Validate.{validate}
use family_quest.Math.Session.{MathSession}

abbrev pub backup_version : ℤ
backup_version = pos 6

pub record BackupParticipant : Type 0 where
  pub learning_profile : LearningProfile
  pub id : ℤ
  pub name : String
  pub role : String
  pub pin_code : String
  pub active : Bool
  pub created_at : Time

pub record BackupChore : Type 0 where
  pub id : ℤ
  pub title : String
  pub description : String
  pub schedule : String
  pub time_window : String
  pub benefit_type : String
  pub execution_mode : String
  pub base_value : ℤ
  pub active : Bool
  pub created_at : Time

pub record BackupAssignment : Type 0 where
  pub id : ℤ
  pub chore_id : ℤ
  pub participant_id : ℤ
  pub active : Bool
  pub created_at : Time

pub record BackupTask : Type 0 where
  pub id : ℤ
  pub assignment_id : ℤ
  pub due_date : String
  pub status : String
  pub completed_by : Option ℤ
  pub completed_at : Option Time
  pub confirmed_at : Option Time
  pub created_at : Time

pub record BackupConfirmation : Type 0 where
  pub id : ℤ
  pub task_id : ℤ
  pub participant_id : ℤ
  pub rating : ℤ
  pub comment : String
  pub created_at : Time

pub record BackupBehaviorRating : Type 0 where
  pub id : ℤ
  pub rated_date : String
  pub rater_participant_id : ℤ
  pub target_participant_id : ℤ
  pub rating : ℤ
  pub comment : String
  pub created_at : Time

pub record BackupReward : Type 0 where
  pub id : ℤ
  pub title : String
  pub description : String
  pub period : String
  pub reward_type : String
  pub star_cost : ℤ
  pub smile_cost : ℤ
  pub active : Bool
  pub created_at : Time

pub record BackupRewardParticipant : Type 0 where
  pub id : ℤ
  pub reward_id : ℤ
  pub participant_id : ℤ
  pub active : Bool
  pub created_at : Time

pub record BackupData : Type 0 where
  pub family_id : ℤ
  pub math_sessions : List MathSession
  pub activity_rewards : List ActivityReward
  pub family_entries : List FamilyEntry
  pub version : ℤ
  pub exported_at : Time
  pub participants : List BackupParticipant
  pub chores : List BackupChore
  pub assignments : List BackupAssignment
  pub tasks : List BackupTask
  pub confirmations : List BackupConfirmation
  pub behavior_ratings : List BackupBehaviorRating
  pub rewards : List BackupReward
  pub reward_participants : List BackupRewardParticipant

unfoldable pub check_pin : String → Result (Unit {0})
check_pin pin = if str_eq pin "" then ok tt else validate_pin pin

unfoldable pub check_person : Time → BackupParticipant → Result (Unit {0})
check_person now p = do
  validate_profile p.learning_profile now
  fail_if (le_ℤ p.id (pos 0) || str_eq p.name "") invalid_input
  validate_role p.role
  check_pin p.pin_code

unfoldable pub check_people : Time → List BackupParticipant → Result (Unit {0})
check_people now [] = ok tt
check_people now (p ∷ ps) = do check_person now p; check_people now ps

abbrev pub leads : BackupParticipant → Bool
leads p = p.active && str_eq p.role role_parent

abbrev pub is_person : List BackupParticipant → ℤ → Bool
is_person [] id = false
is_person (p ∷ ps) id = eq_ℤ p.id id || is_person ps id

abbrev pub strange_step : List BackupParticipant → FamilyStep → Bool
strange_step people s =
    not (eq_ℤ s.participant_id (pos 0)) && not (is_person people s.participant_id)

abbrev pub strange_event : List BackupParticipant → FamilyEvent → Bool
strange_event people ev = not (is_person people ev.actor_id)

abbrev pub is_stranger : List BackupParticipant → ℤ → Bool
is_stranger people id = not (is_person people id)

unfoldable pub check_entry : List BackupParticipant → List ℤ → FamilyEntry → Result (Unit {0})
check_entry people ids e = do
  fail_if
      (le_ℤ e.id (pos 0)
        || le_ℤ e.version (pos 0)
        || mem_ℤ e.id ids
        || not (is_person people e.author_id)
        || (e.created_at == 0)
        || (e.updated_at == 0))
      invalid_input
  validate e
  fail_if
      (any (is_stranger people) e.participant_ids
        || any (strange_step people) e.steps
        || any (strange_event people) e.events)
      invalid_input

unfoldable pub check_entries :
    List BackupParticipant → List ℤ → List FamilyEntry → Result (Unit {0})
check_entries people ids [] = ok tt
check_entries people ids (e ∷ es) = do
  check_entry people ids e
  check_entries people (e.id ∷ ids) es

-- `validateFamily`.
unfoldable pub validate_family : BackupData → Result (Unit {0})
validate_family b = check_entries b.participants [] b.family_entries
