-- ===== src/Tasks/Due.antt =====
-- When a claim finds something: the times at which pending events fall due
-- (backend/internal/store/notifications.go).
use family_quest.Base.{
  ◌+◌, ◌≤◌, ◌≡◌, refl, Bool, true, not, ◌&&◌, ◌||◌, List, [], ◌∷◌, String, some, any, all, arith,
  Bool-cases, inl, inr, leb, ℤ,
}
use family_quest.Domain.Dates.{Time}
use family_quest.Domain.Notification.{
  hour, notification_retry_delay, notification_retry_delay_bounds,
}
use family_quest.Store.Db.{ParticipantRow}
use family_quest.Tasks.Tables.{Work, RecipientRow, OutboxRow, pending_row}
use family_quest.Tasks.Lifecycle.{events_for}
use family_quest.Tasks.Outbox.{
  Delivery, Settlement, candidate, claim_row, claim_notification, is_claimable, first_of,
  lease_over, one_more, settled,
}
use family_quest.Tasks.Steps.{
  Call, complete, confirm, recipient, revoke, claim, settle, RowStep, stays, is_cancelled,
  is_leased, is_settled,
}
use family_quest.Tasks.Queue.{IsKeyed}
use family_quest.Tasks.Calls.{Reach, new_rows}
use family_quest.Tasks.Events.{Reach-all}

candidate-exists :
    (now : Time) (rows : List OutboxRow)
    → any (is_claimable now) rows ≡ true
    → (c : OutboxRow) × (candidate now rows ≡ some c)
unfolding candidate
candidate-exists now [] h = cc
candidate-exists now (r ∷ rs) h = elim (Bool-cases (is_claimable now r)) [
  | inl hit ↦ (first_of r (candidate now rs), rw hit refl)
  | inr miss ↦ let (c, e) = candidate-exists now rs (rw miss at h) in (c, rw miss e)
]

pub claim_exists :
    (w : Work) (token : String) (now : Time)
    → any (is_claimable now) w.outbox ≡ true
    → (d : Delivery) × ((claim_notification w token now).1 ≡ some d)
unfolding claim_notification claim_row
claim_exists w token now h =
    let (c, e) = candidate-exists now w.outbox h in
    (
      record { id = c.id; lease = token; recipient = c.recipient; attempts = one_more c.attempts },
      rw e refl,
    )

-- The row is done, or may be claimed an hour after the time if it is left alone.
abbrev pub is_due : Time → OutboxRow → Bool
is_due time r =
    not (pending_row r) || (leb r.available_at (time + hour) && lease_over r.lease (time + hour))

abbrev pub by_time : Time → Time → Call → Bool
by_time time now c = leb now time

settled-is_due :
    (time now : Time) (v : Settlement) (r : OutboxRow)
    → leb now time ≡ true
    → is_due time (settled v r.attempts now r) ≡ true
unfolding settled
settled-is_due time now v r h =
    let delay = notification_retry_delay_bounds r.attempts r.attempts in
    let most : notification_retry_delay r.attempts ≤ hour = delay.1 in ground (arith, most)

keeps_due :
    (time now : Time) (c : Call) (r s : OutboxRow)
    → by_time time now c ≡ true
    → RowStep now c r s
    → is_due time r ≡ true
    → is_due time s ≡ true
keeps_due time now c r s ok (stays e) h = rw e h
keeps_due time now c r s ok (is_cancelled code p e) h = rw e refl
keeps_due time now c r s ok (is_leased token by p e) h = rw e (ground arith)
keeps_due time now c r s ok (is_settled v by p e) h = rw e (settled-is_due time now v r ok)

events-is_due :
    (time now : Time) (new_id : String → String) (people : List ParticipantRow) (task : ℤ)
    (rs : List RecipientRow)
    → now ≤ time
    → all (is_due time) (events_for new_id people task now rs) ≡ true
unfolding events_for
events-is_due time now new_id people task [] h = refl
events-is_due time now new_id people task (r ∷ rs) h =
    ground (arith, events-is_due time now new_id people task rs h)

new_rows-is_due :
    (time : Time) (w : Work) (now : Time) (c : Call)
    → by_time time now c ≡ true
    → all (is_due time) (new_rows w now c) ≡ true
unfolding new_rows
new_rows-is_due time w now (complete new_id id who) h =
    ground (arith, events-is_due time now new_id w.participants id w.recipients)
new_rows-is_due time w now (confirm id who rating comment) h = refl
new_rows-is_due time w now (recipient v enabled) h = refl
new_rows-is_due time w now (revoke ref) h = refl
new_rows-is_due time w now (claim token) h = refl
new_rows-is_due time w now (settle v) h = refl

due_claimable :
    (time : Time) (rows : List OutboxRow)
    → all (is_due time) rows ≡ true
    → any pending_row rows ≡ true
    → any (is_claimable (time + hour)) rows ≡ true
due_claimable time [] h p = cc
due_claimable time (r ∷ rs) h p = ground (arith, due_claimable time rs)

-- If an event is pending after any calls up to a time, a claim an hour after that time returns an
-- event; where at the start every pending event was due by then, and the identifiers of the
-- outbox were different.
pub pending_claimed :
    (time : Time) (token : String) {w u : Work}
    → IsKeyed w.outbox
    → all (is_due time) w.outbox ≡ true
    → Reach (by_time time) w u
    → any pending_row u.outbox ≡ true
    → (d : Delivery) × ((claim_notification u token (time + hour)).1 ≡ some d)
pending_claimed time token {w} {u} key due run p = claim_exists u token (time + hour) (
    due_claimable time u.outbox
      (Reach-all (by_time time) (is_due time) (keeps_due time) (new_rows-is_due time) key run due)
      p)
