-- ===== src/Tasks/Muted.antt =====
-- Subscriptions that stay closed, under every call that does not open them
-- (backend/internal/store/notifications.go).
use family_quest.Base.{
  ◌≡◌, refl, Bool, true, false, not, ◌&&◌, List, [], ◌∷◌, String, ℤ, Option, none, some, str_eq,
  all, arith, Bool-cases, inl, inr, if◌then◌else◌,
}
use family_quest.Domain.Dates.{Time}
use family_quest.Store.Db.{ParticipantRow}
use family_quest.Tasks.Tables.{Work, NotificationRecipient, RecipientRow, OutboxRow, pending_row}
use family_quest.Tasks.Lifecycle.{complete_task, confirm_task, events_for}
use family_quest.Tasks.Recipients.{
  disable, put_recipient, cancel_rows, has_reference, of_reference, set_notification_recipient,
  revoke_notification_recipient, enable_for, with_recipients, parent_row, is_subscription,
  cancelled,
}
use family_quest.Tasks.Outbox.{
  Settlement, claim_notification, claim_row, candidate, settle_notification, settle_row, held_row,
  end_consent, settled, same_consent,
}
use family_quest.Tasks.Steps.{
  Call, complete, confirm, recipient, revoke, claim, settle, RowStep, stays, is_cancelled,
  is_leased, is_settled,
}
use family_quest.Tasks.Queue.{IsKeyed, Steps-all}
use family_quest.Tasks.Calls.{Reach, here, next, apply_call, new_rows, call-Steps}
use family_quest.Tasks.Events.{Reach-IsKeyed}

-- The call opens a subscription for the reference.
abbrev pub opts_in : String → Call → Bool
opts_in ref (recipient v enabled) = enabled && str_eq v.reference ref
opts_in ref _ = false

abbrev pub no_opt_in : String → Time → Call → Bool
no_opt_in ref now c = not (opts_in ref c)

abbrev pub muted : String → RecipientRow → Bool
muted ref r = not (r.enabled && str_eq r.recipient.reference ref)

abbrev pub silent : String → OutboxRow → Bool
silent ref r = not (of_reference ref r && pending_row r)

pub record IsSilent (ref : String) (w : Work) : Type 0 where
  pub recipients : all (muted ref) w.recipients ≡ true
  pub events : all (silent ref) w.outbox ≡ true

disable-muted :
    (ref : String) (test : NotificationRecipient → Bool) (rs : List RecipientRow)
    → all (muted ref) rs ≡ true
    → all (muted ref) (disable test rs) ≡ true
unfolding disable
disable-muted ref test [] h = refl
disable-muted ref test (r ∷ rs) h = ground (arith, disable-muted ref test rs)

pub disable-all-muted :
    (ref : String) (rs : List RecipientRow)
    → all (muted ref) (disable (has_reference ref) rs) ≡ true
unfolding disable
disable-all-muted ref [] = refl
disable-all-muted ref (r ∷ rs) = ground (arith, disable-all-muted ref rs)

put_recipient-muted :
    (ref : String) (v : NotificationRecipient) (rs : List RecipientRow)
    → str_eq v.reference ref ≡ false
    → all (muted ref) rs ≡ true
    → all (muted ref) (put_recipient v rs) ≡ true
unfolding put_recipient
put_recipient-muted ref v [] other h = ground arith
put_recipient-muted ref v (r ∷ rs) other h = ground (arith, put_recipient-muted ref v rs)

cancelled_one :
    (ref code : String) (now : Time) (r : OutboxRow)
    → silent ref (if pending_row r && of_reference ref r then cancelled code now r else r) ≡ true
cancelled_one ref code now r = elim (Bool-cases (pending_row r && of_reference ref r)) [
  | inl hit ↦ rw hit (ground arith)
  | inr miss ↦ rw miss (ground arith)
]

pub cancel_rows-silent :
    (ref code : String) (now : Time) (rows : List OutboxRow)
    → all (silent ref) (cancel_rows (of_reference ref) code now rows) ≡ true
unfolding cancel_rows
cancel_rows-silent ref code now [] = refl
cancel_rows-silent ref code now (r ∷ rs) =
    ground (arith, cancelled_one ref code now r, cancel_rows-silent ref code now rs)

events-silent :
    (ref : String) (new_id : String → String) (people : List ParticipantRow) (task : ℤ) (now : Time)
    (rs : List RecipientRow)
    → all (muted ref) rs ≡ true
    → all (silent ref) (events_for new_id people task now rs) ≡ true
unfolding events_for
events-silent ref new_id people task now [] h = refl
events-silent ref new_id people task now (r ∷ rs) h =
    ground (arith, events-silent ref new_id people task now rs)

new_rows-silent :
    (ref : String) (w : Work) (now : Time) (c : Call)
    → all (muted ref) w.recipients ≡ true
    → all (silent ref) (new_rows w now c) ≡ true
unfolding new_rows
new_rows-silent ref w now (complete new_id id who) h =
    ground (arith, events-silent ref new_id w.participants id now w.recipients)
new_rows-silent ref w now (confirm id who rating comment) h = refl
new_rows-silent ref w now (recipient v enabled) h = refl
new_rows-silent ref w now (revoke gone) h = refl
new_rows-silent ref w now (claim token) h = refl
new_rows-silent ref w now (settle v) h = refl

keeps_silent :
    (ref : String) (now : Time) (c : Call) (r s : OutboxRow)
    → RowStep now c r s
    → silent ref r ≡ true
    → silent ref s ≡ true
unfolding settled
keeps_silent ref now c r s (stays e) h = rw e h
keeps_silent ref now c r s (is_cancelled code p e) h = rw e (ground arith)
keeps_silent ref now c r s (is_leased token by p e) h = rw e h
keeps_silent ref now c r s (is_settled v by p e) h = rw e (ground arith)

enable_for-muted :
    (ref : String) (w : Work) (v : NotificationRecipient) (now : Time) (p : Option ParticipantRow)
    → str_eq v.reference ref ≡ false
    → all (muted ref) w.recipients ≡ true
    → all (muted ref) (enable_for w v now p).0.recipients ≡ true
unfolding enable_for with_recipients
enable_for-muted ref w v now none other h = h
enable_for-muted ref w v now (some p) other h =
    ground (arith, put_recipient-muted ref v w.recipients)

recipient-muted :
    (ref : String) (w : Work) (v : NotificationRecipient) (enabled : Bool) (now : Time)
    → no_opt_in ref now (recipient v enabled) ≡ true
    → all (muted ref) w.recipients ≡ true
    → all (muted ref) (set_notification_recipient w v enabled now).0.recipients ≡ true
unfolding set_notification_recipient with_recipients
recipient-muted ref w v true now ok h =
    ground (arith, enable_for-muted ref w v now (parent_row v.parent_id w.participants))
recipient-muted ref w v false now ok h = disable-muted ref (is_subscription v) w.recipients h

claim_row-recipients :
    (w : Work) (token : String) (now : Time) (c : Option OutboxRow)
    → (claim_row w token now c).0.recipients ≡ w.recipients
unfolding claim_row
claim_row-recipients w token now none = refl
claim_row-recipients w token now (some c) = refl

settle_row-muted :
    (ref : String) (w : Work) (v : Settlement) (now : Time) (o : Option OutboxRow)
    → all (muted ref) w.recipients ≡ true
    → all (muted ref) (settle_row w v now o).0.recipients ≡ true
unfolding settle_row end_consent
settle_row-muted ref w v now none h = h
settle_row-muted ref w v now (some o) h =
    ground (arith, disable-muted ref (same_consent o.recipient) w.recipients)

call-muted :
    (ref : String) (w : Work) (now : Time) (c : Call)
    → no_opt_in ref now c ≡ true
    → all (muted ref) w.recipients ≡ true
    → all (muted ref) (apply_call w now c).recipients ≡ true
unfolding apply_call complete_task confirm_task revoke_notification_recipient claim_notification
    settle_notification
call-muted ref w now (complete new_id id who) ok h = ground arith
call-muted ref w now (confirm id who rating comment) ok h = ground arith
call-muted ref w now (recipient v enabled) ok h = recipient-muted ref w v enabled now ok h
call-muted ref w now (revoke gone) ok h = disable-muted ref (has_reference gone) w.recipients h
call-muted ref w now (claim token) ok h =
    rw (claim_row-recipients w token now (candidate now w.outbox)) h
call-muted ref w now (settle v) ok h =
    settle_row-muted ref w v now (held_row v.id v.lease now w.outbox) h

call-IsSilent :
    (ref : String) (w : Work) (now : Time) (c : Call)
    → no_opt_in ref now c ≡ true
    → IsKeyed w.outbox
    → IsSilent ref w
    → IsSilent ref (apply_call w now c)
call-IsSilent ref w now c ok key s = record {
  recipients = call-muted ref w now c ok s.recipients;
  events =
      Steps-all (silent ref) now c (new_rows w now c) (keeps_silent ref now c)
        (new_rows-silent ref w now c s.recipients) (call-Steps w now c key) s.events;
}

pub Reach-IsSilent :
    (ref : String) {w u : Work}
    → IsKeyed w.outbox
    → Reach (no_opt_in ref) w u
    → IsSilent ref w
    → IsSilent ref u
Reach-IsSilent ref key here s = s
Reach-IsSilent ref key (next {u} run now c ok later) s =
    call-IsSilent ref u now c ok (Reach-IsKeyed run key) (Reach-IsSilent ref key run s)
