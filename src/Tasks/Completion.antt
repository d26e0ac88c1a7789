-- ===== src/Tasks/Completion.antt =====
-- The life of a task under the calls of store.go (`CompleteTask` and `ConfirmTask`,
-- backend/internal/store).
use family_quest.Base.{
  ℕ, ◌≡◌, refl, ap, ◌∙◌, Bool, true, false, ◌||◌, List, String, ℤ, some, Option, none, str_eq, any,
  arith, Bool-cases, inl, inr, if◌then◌else◌, get_elem?, get_elem?-map, lt_ℤ, pos,
}
use family_quest.Domain.Dates.{Time}
use family_quest.Tasks.Tables.{Work, TaskRow, NotificationRecipient, OutboxRow}
use family_quest.Store.Db.{ParticipantRow}
use family_quest.Tasks.Lifecycle.{
  complete_task, confirm_task, complete_rows, confirm_rows, completable, completed, confirmable,
  confirmed, is_open_task,
}
use family_quest.Tasks.Recipients.{
  set_notification_recipient, revoke_notification_recipient, enable_for, with_recipients,
  parent_row,
}
use family_quest.Tasks.Outbox.{
  Settlement, claim_notification, claim_row, candidate, settle_notification, settle_row, held_row,
  end_consent,
}
use family_quest.Tasks.Steps.{Call, complete, confirm, recipient, revoke, claim, settle}
use family_quest.Tasks.Calls.{Reach, here, next, apply_call}

-- What a call does to a task.
pub data TaskStep (t u : TaskRow) : Type 0 where
  untouched : u ≡ t → TaskStep t u
  is_completed :
      (who : ℤ) (now : Time) → is_open_task t ≡ true → u ≡ completed who now t → TaskStep t u
  is_confirmed :
      (now : Time)
      → (str_eq t.status "completed" || str_eq t.status "confirmed") ≡ true
      → u ≡ confirmed now t
      → TaskStep t u

complete-TaskStep :
    (w : Work) (id who : ℤ) (now : Time) (t : TaskRow)
    → TaskStep t (if completable w id who t then completed who now t else t)
unfolding completable
complete-TaskStep w id who now t = elim (Bool-cases (completable w id who t)) [
  | inl hit ↦ rw hit (is_completed who now (ground arith) refl)
  | inr miss ↦ rw miss (untouched refl)
]

confirm-TaskStep :
    (id : ℤ) (now : Time) (t : TaskRow)
    → TaskStep t (if confirmable id t then confirmed now t else t)
confirm-TaskStep id now t = elim (Bool-cases (confirmable id t)) [
  | inl hit ↦ rw hit (is_confirmed now (ground arith) refl)
  | inr miss ↦ rw miss (untouched refl)
]

-- The task at a position does a step.
abbrev Moves : List TaskRow → List TaskRow → Type 0
Moves ts us =
    (i : ℕ) (t : TaskRow)
    → get_elem? ts i ≡ some t
    → (u : TaskRow) × (get_elem? us i ≡ some u) × TaskStep t u

rests : (ts us : List TaskRow) → us ≡ ts → Moves ts us
rests ts us e i t h = (t, ap (λ l. get_elem? l i) e ∙ h, untouched refl)

complete-Moves :
    (w : Work) (now : Time) (new_id : String → String) (id who : ℤ)
    → Moves w.tasks (complete_task new_id w id who now).0.tasks
unfolding complete_task complete_rows
complete-Moves w now new_id id who i t h = elim (Bool-cases (any (completable w id who) w.tasks)) [
  | inl found ↦ rw found (
    _,
    get_elem?-map (λ x. if completable w id who x then completed who now x else x) w.tasks i t h,
    complete-TaskStep w id who now t,
  )
  | inr missing ↦ rw missing (t, h, untouched refl)
]

confirm-Moves :
    (w : Work) (now : Time) (id who rating : ℤ) (comment : String)
    → Moves w.tasks (confirm_task w id who rating comment now).0.tasks
unfolding confirm_task confirm_rows
confirm-Moves w now id who rating comment i t h =
    elim (Bool-cases (lt_ℤ rating (pos 1) || lt_ℤ (pos 5) rating)) [
      | inl bad ↦ rw bad (t, h, untouched refl)
      | inr rated ↦ elim (Bool-cases (any (confirmable id) w.tasks)) [
        | inl found ↦
            rw (rated, found)
              (
                _,
                get_elem?-map (λ x. if confirmable id x then confirmed now x else x) w.tasks i t h,
                confirm-TaskStep id now t,
              )
        | inr missing ↦ rw (rated, missing) (t, h, untouched refl)
      ]
    ]

enable_for-tasks :
    (w : Work) (v : NotificationRecipient) (now : Time) (p : Option ParticipantRow)
    → (enable_for w v now p).0.tasks ≡ w.tasks
unfolding enable_for with_recipients
enable_for-tasks w v now none = refl
enable_for-tasks w v now (some p) = ground arith

recipient-tasks :
    (w : Work) (v : NotificationRecipient) (enabled : Bool) (now : Time)
    → (set_notification_recipient w v enabled now).0.tasks ≡ w.tasks
unfolding set_notification_recipient with_recipients
recipient-tasks w v enabled now =
    ground (arith, enable_for-tasks w v now (parent_row v.parent_id w.participants))

claim_row-tasks :
    (w : Work) (token : String) (now : Time) (c : Option OutboxRow)
    → (claim_row w token now c).0.tasks ≡ w.tasks
unfolding claim_row
claim_row-tasks w token now none = refl
claim_row-tasks w token now (some c) = refl

settle_row-tasks :
    (w : Work) (v : Settlement) (now : Time) (o : Option OutboxRow)
    → (settle_row w v now o).0.tasks ≡ w.tasks
unfolding settle_row end_consent
settle_row-tasks w v now none = refl
settle_row-tasks w v now (some o) = ground arith

call-Moves : (w : Work) (now : Time) (c : Call) → Moves w.tasks (apply_call w now c).tasks
unfolding apply_call revoke_notification_recipient claim_notification settle_notification
call-Moves w now (complete new_id id who) = complete-Moves w now new_id id who
call-Moves w now (confirm id who rating comment) = confirm-Moves w now id who rating comment
call-Moves w now (recipient v enabled) = rests w.tasks _ (recipient-tasks w v enabled now)
call-Moves w now (revoke ref) = rests w.tasks _ refl
call-Moves w now (claim token) =
    rests w.tasks _ (claim_row-tasks w token now (candidate now w.outbox))
call-Moves w now (settle v) =
    rests w.tasks _ (settle_row-tasks w v now (held_row v.id v.lease now w.outbox))

-- What is recorded of a task that is confirmed.
abbrev pub SameRecord : TaskRow → TaskRow → Type 0
SameRecord t u =
    (u.id ≡ t.id)
    × (u.assignment_id ≡ t.assignment_id)
    × (u.status ≡ "confirmed")
    × (u.completed_by ≡ t.completed_by)
    × (u.completed_at ≡ t.completed_at)

TaskStep-SameRecord : (t u : TaskRow) → TaskStep t u → t.status ≡ "confirmed" → SameRecord t u
TaskStep-SameRecord t u (untouched e) h = rw e (refl, refl, h, refl, refl)
TaskStep-SameRecord t u (is_completed who now p e) h =
    absurd (let shut : is_open_task t ≡ false = rw h refl in cc)
TaskStep-SameRecord t u (is_confirmed now p e) h = rw e (refl, refl, refl, refl, refl)

-- Through any calls, a task that is confirmed stays confirmed, with the same assignment, the same
-- participant who completed it and the same time of completion.
pub confirmed_stays :
    {may : Time → Call → Bool} {w u : Work} (i : ℕ) (t : TaskRow)
    → Reach may w u
    → get_elem? w.tasks i ≡ some t
    → t.status ≡ "confirmed"
    → (s : TaskRow) × (get_elem? u.tasks i ≡ some s) × SameRecord t s
confirmed_stays i t here place h = (t, place, (refl, refl, h, refl, refl))
confirmed_stays i t (next {u} run now c allowed later) place h =
    let (q, between, same) = confirmed_stays i t run place h in
    let (a, b, state, by, at_time) = same in
    let (s, after, step) = call-Moves u now c i q between in
    let (a2, b2, state2, by2, at2) = TaskStep-SameRecord q s step state in
    (s, after, (a2 ∙ a, b2 ∙ b, state2, by2 ∙ by, at2 ∙ at_time))
