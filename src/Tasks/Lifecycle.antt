-- ===== src/Tasks/Lifecycle.antt =====
-- `TaskOwner`, `CompleteTask` and `ConfirmTask` (backend/internal/store/store.go). The task that both
-- read back after the commit is left out of their results.
use family_quest.Base.{
  Bool, not, ◌&&◌, ◌||◌, List, [], ◌∷◌, ◌++◌, map, String, ℤ, pos, lt_ℤ, eq_ℤ, str_eq, any, Result,
  ok, err, not_found, invalid_rating, Option, none, some, if◌then◌else◌,
}
use family_quest.Domain.Dates.{Time}
use family_quest.Domain.Principals.{role_parent}
use family_quest.Store.Db.{ParticipantRow}
use family_quest.Tasks.Tables.{
  Work, Assignment, TaskRow, Confirmation, NotificationRecipient, RecipientRow, OutboxRow,
}

unfoldable pub find_task : ℤ → List TaskRow → Option TaskRow
find_task id [] = none
find_task id (t ∷ ts) = if eq_ℤ t.id id then some t else find_task id ts

unfoldable pub find_assignment : ℤ → List Assignment → Option Assignment
find_assignment id [] = none
find_assignment id (a ∷ rest) = if eq_ℤ a.id id then some a else find_assignment id rest

unfoldable pub owner_of : Work → Option TaskRow → Result ℤ
owner_of w none = err not_found
owner_of w (some t) = elim (find_assignment t.assignment_id w.assignments) [
  | none ↦ err not_found
  | some a ↦ ok a.participant_id
]

-- `TaskOwner`.
unfoldable pub task_owner : Work → ℤ → Result ℤ
task_owner w id = owner_of w (find_task id w.tasks)

abbrev pub active_participant : ℤ → ParticipantRow → Bool
active_participant id p = eq_ℤ p.id id && p.active

-- An assignment of the task to the participant, both active.
abbrev pub assigns : List ParticipantRow → TaskRow → ℤ → Assignment → Bool
assigns people t who a =
    eq_ℤ a.id t.assignment_id
    && eq_ℤ a.participant_id who
    && a.active
    && any (active_participant who) people

abbrev pub is_open_task : TaskRow → Bool
is_open_task t = str_eq t.status "pending" || str_eq t.status "needs_work"

unfoldable pub completable : Work → ℤ → ℤ → TaskRow → Bool
completable w id who t =
    eq_ℤ t.id id && is_open_task t && any (assigns w.participants t who) w.assignments

abbrev pub completed : ℤ → Time → TaskRow → TaskRow
completed who now t = record t {
  status = "completed";
  completed_by = some who;
  completed_at = some now;
}

unfoldable pub complete_rows : (TaskRow → Bool) → ℤ → Time → List TaskRow → List TaskRow
complete_rows test who now ts = map (λ t. if test t then completed who now t else t) ts

-- A recipient who is enabled, and an active parent.
abbrev pub active_parent : ℤ → ParticipantRow → Bool
active_parent id p = eq_ℤ p.id id && p.active && str_eq p.role role_parent

abbrev pub is_notified : List ParticipantRow → RecipientRow → Bool
is_notified people r = r.enabled && any (active_parent r.recipient.parent_id) people

abbrev pub queued_event : ℤ → NotificationRecipient → Time → String → OutboxRow
queued_event task recipient now id = record {
  id = id;
  task_id = task;
  recipient = recipient;
  state = "pending";
  attempts = pos 0;
  available_at = now;
  lease = none;
  error_code = "";
  portal_id = "";
  created_at = now;
  settled_at = none;
}

-- One event for each recipient who is notified; `new_id` gives the random identifiers.
unfoldable pub events_for :
    (String → String) → List ParticipantRow → ℤ → Time → List RecipientRow → List OutboxRow
events_for new_id people task now [] = []
events_for new_id people task now (r ∷ rs) =
    let rest = events_for new_id people task now rs in
    if is_notified people r
    then queued_event task r.recipient now (new_id r.recipient.reference) ∷ rest
    else rest

-- `CompleteTask`: the task and the events commit together.
unfoldable pub complete_task : (String → String) → Work → ℤ → ℤ → Time → Work × Result (Unit {0})
complete_task new_id w id who now =
    if not (any (completable w id who) w.tasks) then (w, err not_found) else (
      record w {
        tasks = complete_rows (completable w id who) who now w.tasks;
        outbox = w.outbox ++ events_for new_id w.participants id now w.recipients;
      },
      ok tt,
    )

abbrev pub confirmable : ℤ → TaskRow → Bool
confirmable id t = eq_ℤ t.id id && (str_eq t.status "completed" || str_eq t.status "confirmed")

abbrev pub confirmed : Time → TaskRow → TaskRow
confirmed now t = record t { status = "confirmed"; confirmed_at = some now }

unfoldable pub confirm_rows : ℤ → Time → List TaskRow → List TaskRow
confirm_rows id now ts = map (λ t. if confirmable id t then confirmed now t else t) ts

-- The insertion into `confirmations`: one for each task and participant, the last one stands.
unfoldable pub put_confirmation : Confirmation → List Confirmation → List Confirmation
put_confirmation c [] = c ∷ []
put_confirmation c (x ∷ xs) =
    if eq_ℤ x.task_id c.task_id && eq_ℤ x.participant_id c.participant_id
    then c ∷ xs
    else x ∷ put_confirmation c xs

-- `ConfirmTask`.
unfoldable pub confirm_task : Work → ℤ → ℤ → ℤ → String → Time → Work × Result (Unit {0})
confirm_task w id who rating comment now =
    if lt_ℤ rating (pos 1) || lt_ℤ (pos 5) rating
    then (w, err invalid_rating)
    else if not (any (confirmable id) w.tasks)
    then (w, err not_found)
    else (
      record w {
        tasks = confirm_rows id now w.tasks;
        confirmations =
            put_confirmation
              (record {
                task_id = id;
                participant_id = who;
                rating = rating;
                comment = comment;
                created_at = now;
              })
              w.confirmations;
      },
      ok tt,
    )
