-- ===== src/Examples/Tasks.antt =====
-- A task with one event of the outbox, and calls on them (backend/internal/store).
use family_quest.Base.{
  ◌+ℤ◌, zero, suc, ◌+◌, ◌≡◌, ◌≢◌, refl, true, false, [], ◌∷◌, map, String, pos, none, some,
  get_elem?, all, arith, eq_iff, ok, err, not_found,
}
use family_quest.Domain.Notification.{hour}
use family_quest.Tasks.Tables.{Work, TaskRow, NotificationRecipient, OutboxRow}
use family_quest.Tasks.Lifecycle.{
  task_owner, find_task, owner_of, find_assignment, complete_task, completable, confirm_task,
}
use family_quest.Tasks.Recipients.{cancelled, cancel_rows, revoke_notification_recipient}
use family_quest.Tasks.Outbox.{
  Delivery, candidate, claim_row, claim_notification, lease_rows, leased, notification_allowed,
}
use family_quest.Tasks.Steps.{claim, confirm, phase}
use family_quest.Tasks.Queue.{IsKeyed}
use family_quest.Tasks.Calls.{here, next, apply_call}
use family_quest.Tasks.Events.{QueueStep, call_refines, settled_stays}
use family_quest.Tasks.Claims.{lease_exclusive}
use family_quest.Tasks.Due.{pending_claimed}
use family_quest.Tasks.Silence.{revoked_silent, delivers_to}
use family_quest.Tasks.Completion.{SameRecord, confirmed_stays}
use family_quest.Tasks.Once.{complete_once, IsKeyedTasks}
use family_quest.Application.Tasks.{complete_task_as, confirm_task_as}
use family_quest.Application.FourEyes.{is_fair, tasks-fair}
use family_quest.Examples.Data.{mother, noon, evening, profile}

abbrev parent_recipient : NotificationRecipient
parent_recipient = record {
  reference = "r";
  subscription_id = "s";
  binding_id = "b";
  issuer = "i";
  subject = "u";
  parent_id = pos 1;
}

abbrev event : String → String → OutboxRow
event id state = record {
  id = id;
  task_id = pos 9;
  recipient = parent_recipient;
  state = state;
  attempts = pos 0;
  available_at = noon;
  lease = none;
  error_code = "";
  portal_id = "";
  created_at = noon;
  settled_at = none;
}

abbrev chore_task : String → TaskRow
chore_task status = record {
  id = pos 9;
  assignment_id = pos 5;
  due_date = "2024-01-01";
  status = status;
  completed_by = none;
  completed_at = none;
  confirmed_at = none;
}

abbrev work : String → String → Work
work status state = record {
  access_until = none;
  participants =
      record { id = pos 1; role = "parent"; active = true; profile = profile }
      ∷ record { id = pos 2; role = "child"; active = true; profile = profile }
      ∷ [];
  assignments = record { id = pos 5; chore_id = pos 3; participant_id = pos 2; active = true } ∷ [];
  tasks = chore_task status ∷ [];
  confirmations = [];
  recipients = record { recipient = parent_recipient; enabled = true } ∷ [];
  outbox = event "e" state ∷ [];
}

one_row-IsKeyed : (r : OutboxRow) → IsKeyed (r ∷ [])
one_row-IsKeyed r zero zero a b ha hb e = refl
one_row-IsKeyed r zero (suc j) a b ha hb e = cc
one_row-IsKeyed r (suc i) j a b ha hb e = cc

one_row-IsKeyedTasks : (t : TaskRow) → IsKeyedTasks (t ∷ [])
one_row-IsKeyedTasks t zero zero a b ha hb e = refl
one_row-IsKeyedTasks t zero (suc j) a b ha hb e = cc
one_row-IsKeyedTasks t (suc i) j a b ha hb e = cc

call_refines_example :
    QueueStep noon
      (map phase (work "pending" "pending").outbox)
      (map phase (apply_call (work "pending" "pending") noon (claim "t")).outbox)
call_refines_example =
    call_refines (work "pending" "pending") noon (claim "t") (one_row-IsKeyed (event "e" "pending"))

confirmed-IsKeyed :
    IsKeyed
      (apply_call (work "pending" "delivered") noon (confirm (pos 9) (pos 1) (pos 5) "")).outbox
unfolding apply_call confirm_task
confirmed-IsKeyed = one_row-IsKeyed (event "e" "delivered")

settled_stays_example :
    get_elem?
      (apply_call (work "pending" "delivered") noon (confirm (pos 9) (pos 1) (pos 5) "")).outbox
      0
    ≡ some (event "e" "delivered")
settled_stays_example =
    settled_stays {may = λ now c. true} {w = work "pending" "delivered"} 0 (event "e" "delivered")
      (one_row-IsKeyed (event "e" "delivered"))
      (next here noon (confirm (pos 9) (pos 1) (pos 5) "") refl confirmed-IsKeyed) refl refl

-- A second event, which comes a moment later.
abbrev second_event : OutboxRow
second_event = record (event "f" "pending") { available_at = noon + 1 }

abbrev two_events : Work
two_events = record (work "pending" "pending") { outbox = event "e" "pending" ∷ second_event ∷ [] }

two_rows-IsKeyed : (r s : OutboxRow) → r.id ≢ s.id → IsKeyed (r ∷ s ∷ [])
two_rows-IsKeyed r s d zero zero a b ha hb e = refl
two_rows-IsKeyed r s d zero (suc zero) a b ha hb e = let same : r.id ≡ s.id = cc in absurd (d same)
two_rows-IsKeyed r s d (suc zero) zero a b ha hb e = let same : r.id ≡ s.id = cc in absurd (d same)
two_rows-IsKeyed r s d (suc zero) (suc zero) a b ha hb e = refl
two_rows-IsKeyed r s d i (suc (suc j)) a b ha hb e = cc
two_rows-IsKeyed r s d (suc (suc i)) j a b ha hb e = cc

abbrev first_delivery : Delivery
first_delivery = record { id = "e"; lease = "t"; recipient = parent_recipient; attempts = pos 1 }

abbrev second_delivery : Delivery
second_delivery = record { id = "f"; lease = "u"; recipient = parent_recipient; attempts = pos 1 }

first_claim : (claim_notification two_events "t" noon).1 ≡ some first_delivery
unfolding claim_notification claim_row candidate ◌+ℤ◌
first_claim = refl

second_claim :
    (claim_notification (claim_notification two_events "t" noon).0 "u" (noon + 1)).1
    ≡ some second_delivery
unfolding claim_notification claim_row candidate lease_rows ◌+ℤ◌
second_claim = refl

lease_exclusive_example : second_delivery.id ≢ first_delivery.id
lease_exclusive_example =
    lease_exclusive two_events "t" "u" noon (noon + 1) first_delivery second_delivery
      (two_rows-IsKeyed (event "e" "pending") second_event
        (λ same. let b : false ≡ true = (eq_iff "e" "f").1 same in absurd (cc)))
      first_claim here (omega arith) second_claim

revoked_silent_example :
    (let w = revoke_notification_recipient (work "pending" "pending") "r" noon in
      (notification_allowed w "e" "t" evening ≡ false)
      × (delivers_to "r" (claim_notification w "t" evening).1 ≡ false))
unfolding revoke_notification_recipient cancel_rows
revoked_silent_example =
    revoked_silent (work "pending" "pending") "r" noon 0
      (cancelled "recipient_revoked" noon (event "e" "pending"))
      (one_row-IsKeyed (cancelled "recipient_revoked" noon (event "e" "pending"))) refl refl here
      "t" evening

pending_claimed_example :
    (d : Delivery) × ((claim_notification (work "pending" "pending") "t" (noon + hour)).1 ≡ some d)
pending_claimed_example =
    pending_claimed noon "t" {w = work "pending" "pending"} (one_row-IsKeyed (event "e" "pending"))
      refl here refl

claimed-IsKeyed : IsKeyed (apply_call (work "confirmed" "pending") noon (claim "t")).outbox
unfolding apply_call claim_notification claim_row candidate lease_rows
claimed-IsKeyed = one_row-IsKeyed (leased "t" noon (event "e" "pending"))

confirmed_stays_example :
    (s : TaskRow) × (get_elem? (apply_call (work "confirmed" "pending") noon (claim "t")).tasks 0
      ≡ some s)
    × SameRecord (chore_task "confirmed") s
confirmed_stays_example =
    confirmed_stays {may = λ now c. true} {w = work "confirmed" "pending"} 0
      (chore_task "confirmed") (next here noon (claim "t") refl claimed-IsKeyed) refl refl

completes_ok :
    (complete_task (λ ref. "e2") (work "pending" "pending") (pos 9) (pos 2) noon).1 ≡ ok tt
unfolding complete_task completable
completes_ok = refl

complete_once_example :
    (let after = (complete_task (λ ref. "e2") (work "pending" "pending") (pos 9) (pos 2) noon).0 in
      complete_task (λ ref. "e3") after (pos 9) (pos 2) evening ≡ (after, err not_found))
complete_once_example =
    complete_once (λ ref. "e2") (λ ref. "e3") (work "pending" "pending") (pos 9) (pos 2) (pos 2)
      noon evening (one_row-IsKeyedTasks (chore_task "pending")) completes_ok

abbrev confirmed_work : Work
confirmed_work = record (work "completed" "pending") {
  confirmations =
      record {
        task_id = pos 9;
        participant_id = pos 1;
        rating = pos 4;
        comment = "";
        created_at = noon;
      }
      ∷ [];
}

confirmed_work-fair : all (is_fair confirmed_work) confirmed_work.confirmations ≡ true
unfolding task_owner find_task owner_of find_assignment
confirmed_work-fair = refl

tasks-fair_example :
    (let u = (complete_task_as (λ ref. "e2") (pos 1) confirmed_work mother (pos 9) noon).0 in
      let v = (confirm_task_as (pos 1) confirmed_work mother (pos 9) (pos 5) "" noon).0 in
      (all (is_fair u) u.confirmations ≡ true) × (all (is_fair v) v.confirmations ≡ true))
tasks-fair_example =
    tasks-fair (λ ref. "e2") (pos 1) confirmed_work mother (pos 9) (pos 5) "" noon
      confirmed_work-fair
