-- ===== src/Tasks/Tables.antt =====
-- The tables of tasks and notifications (backend/migrations) that store.go and notifications.go of
-- backend/internal/store use. A lease is a token with the time at which it ends.
use family_quest.Base.{Bool, List, String, ℤ, Option, str_eq}
use family_quest.Domain.Dates.{Time}
use family_quest.Store.Db.{ParticipantRow}

pub record Assignment : Type 0 where
  pub id : ℤ
  pub chore_id : ℤ
  pub participant_id : ℤ
  pub active : Bool

pub record TaskRow : Type 0 where
  pub id : ℤ
  pub assignment_id : ℤ
  pub due_date : String
  pub status : String
  pub completed_by : Option ℤ
  pub completed_at : Option Time
  pub confirmed_at : Option Time

pub record Confirmation : Type 0 where
  pub task_id : ℤ
  pub participant_id : ℤ
  pub rating : ℤ
  pub comment : String
  pub created_at : Time

pub record NotificationRecipient : Type 0 where
  pub reference : String
  pub subscription_id : String
  pub binding_id : String
  pub issuer : String
  pub subject : String
  pub parent_id : ℤ

pub record RecipientRow : Type 0 where
  pub recipient : NotificationRecipient
  pub enabled : Bool

pub record OutboxRow : Type 0 where
  pub id : String
  pub task_id : ℤ
  pub recipient : NotificationRecipient
  pub state : String
  pub attempts : ℤ
  pub available_at : Time
  pub lease : Option (String × Time)
  pub error_code : String
  pub portal_id : String
  pub created_at : Time
  pub settled_at : Option Time

pub record Work : Type 0 where
  pub access_until : Option Time
  pub participants : List ParticipantRow
  pub assignments : List Assignment
  pub tasks : List TaskRow
  pub confirmations : List Confirmation
  pub recipients : List RecipientRow
  pub outbox : List OutboxRow

abbrev pub pending_row : OutboxRow → Bool
pending_row r = str_eq r.state "pending"
