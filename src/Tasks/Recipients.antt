-- ===== src/Tasks/Recipients.antt =====
-- The subscriptions of recipients, and the events that lose theirs (`SetNotificationRecipient` and
-- `RevokeNotificationRecipient` of backend/internal/store/notifications.go).
use family_quest.Base.{
  Bool, true, false, not, ◌&&◌, List, [], ◌∷◌, map, String, ℤ, eq_ℤ, str_eq, any, ltb, Result, ok,
  err, forbidden, no_rows, Option, none, some, if◌then◌else◌,
}
use family_quest.Domain.Dates.{Time}
use family_quest.Domain.Principals.{role_parent}
use family_quest.Store.Db.{ParticipantRow}
use family_quest.Tasks.Tables.{Work, NotificationRecipient, RecipientRow, OutboxRow, pending_row}

abbrev pub entitled : Option Time → Time → Bool
entitled none now = true
entitled (some until) now = ltb now until

abbrev pub same_binding : NotificationRecipient → NotificationRecipient → Bool
same_binding a b =
    str_eq a.binding_id b.binding_id
    && str_eq a.issuer b.issuer
    && str_eq a.subject b.subject
    && eq_ℤ a.parent_id b.parent_id

-- The row on conflict: the subscription stays where the consent is the same and in force.
abbrev pub renewed : NotificationRecipient → RecipientRow → RecipientRow
renewed v r = record {
  recipient = record v {
    subscription_id =
        if r.enabled && same_binding r.recipient v
        then r.recipient.subscription_id
        else v.subscription_id;
  };
  enabled = true;
}

unfoldable pub put_recipient : NotificationRecipient → List RecipientRow → List RecipientRow
put_recipient v [] = record { recipient = v; enabled = true } ∷ []
put_recipient v (r ∷ rs) =
    if str_eq r.recipient.reference v.reference then renewed v r ∷ rs else r ∷ put_recipient v rs

-- `update notification_recipients set enabled=false where …`.
unfoldable pub disable : (NotificationRecipient → Bool) → List RecipientRow → List RecipientRow
disable test rs = map (λ r. if test r.recipient then record r { enabled = false } else r) rs

abbrev pub cancelled : String → Time → OutboxRow → OutboxRow
cancelled code now r = record r {
  state = "cancelled";
  error_code = code;
  lease = none;
  settled_at = some now;
}

-- Pending rows that pass a test are cancelled.
unfoldable pub cancel_rows : (OutboxRow → Bool) → String → Time → List OutboxRow → List OutboxRow
cancel_rows test code now rows =
    map (λ r. if pending_row r && test r then cancelled code now r else r) rows

abbrev pub backs : NotificationRecipient → RecipientRow → Bool
backs v r =
    str_eq r.recipient.reference v.reference
    && str_eq r.recipient.subscription_id v.subscription_id
    && r.enabled

-- A row of this recipient whose subscription is not in force.
abbrev pub is_orphan : String → List RecipientRow → OutboxRow → Bool
is_orphan ref rs o = str_eq o.recipient.reference ref && not (any (backs o.recipient) rs)

unfoldable pub with_recipients : Work → String → List RecipientRow → Time → Work
with_recipients w ref rs now = record w {
  recipients = rs;
  outbox = cancel_rows (is_orphan ref rs) "recipient_revoked" now w.outbox;
}

abbrev pub parent_row : ℤ → List ParticipantRow → Option ParticipantRow
parent_row id [] = none
parent_row id (p ∷ ps) = if eq_ℤ p.id id then some p else parent_row id ps

unfoldable pub enable_for :
    Work → NotificationRecipient → Time → Option ParticipantRow → Work × Result (Unit {0})
enable_for w v now none = (w, err no_rows)
enable_for w v now (some p) =
    if not (p.active && str_eq p.role role_parent)
    then (w, err forbidden)
    else (with_recipients w v.reference (put_recipient v w.recipients) now, ok tt)

abbrev pub is_subscription : NotificationRecipient → NotificationRecipient → Bool
is_subscription v r = str_eq r.reference v.reference && str_eq r.subscription_id v.subscription_id

-- `SetNotificationRecipient`.
unfoldable pub set_notification_recipient :
    Work → NotificationRecipient → Bool → Time → Work × Result (Unit {0})
set_notification_recipient w v enabled now =
    if enabled
    then (if not (entitled w.access_until now)
        then (w, err forbidden)
        else enable_for w v now (parent_row v.parent_id w.participants))
    else (with_recipients w v.reference (disable (is_subscription v) w.recipients) now, ok tt)

abbrev pub has_reference : String → NotificationRecipient → Bool
has_reference ref r = str_eq r.reference ref

abbrev pub of_reference : String → OutboxRow → Bool
of_reference ref o = str_eq o.recipient.reference ref

-- `RevokeNotificationRecipient`.
unfoldable pub revoke_notification_recipient : Work → String → Time → Work
revoke_notification_recipient w ref now = record w {
  recipients = disable (has_reference ref) w.recipients;
  outbox = cancel_rows (of_reference ref) "recipient_revoked" now w.outbox;
}
