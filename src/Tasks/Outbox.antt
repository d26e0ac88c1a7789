-- ===== src/Tasks/Outbox.antt =====
-- The queue of notifications (backend/internal/store/notifications.go). `now()` of a transaction and
-- the random lease token are arguments.
use family_quest.Base.{
  ℕ, ◌+◌, Bool, true, false, not, ◌&&◌, ◌||◌, List, [], ◌∷◌, map, String, ℤ, pos, ◌+ℤ◌, lt_ℤ, eq_ℤ,
  str_eq, str_lt, any, ltb, leb, ◌==◌, Result, ok, err, conflict, Option, none, some, if◌then◌else◌,
}
use family_quest.Domain.Dates.{Time}
use family_quest.Domain.Notification.{notification_retry_delay}
use family_quest.Tasks.Tables.{Work, NotificationRecipient, RecipientRow, OutboxRow, pending_row}
use family_quest.Tasks.Lifecycle.{active_parent}
use family_quest.Tasks.Recipients.{entitled, disable, cancel_rows, backs}

abbrev pub lease_over : Option (String × Time) → Time → Bool
lease_over none now = true
lease_over (some (token, until)) now = leb until now

abbrev pub is_claimable : Time → OutboxRow → Bool
is_claimable now r = pending_row r && leb r.available_at now && lease_over r.lease now

-- `order by available_at,created_at,id`.
abbrev pub before : OutboxRow → OutboxRow → Bool
before a b =
    if ltb a.available_at b.available_at
    then true
    else if not (a.available_at == b.available_at)
    then false
    else if ltb a.created_at b.created_at
    then true
    else if not (a.created_at == b.created_at)
    then false
    else str_lt a.id b.id

abbrev pub first_of : OutboxRow → Option OutboxRow → OutboxRow
first_of r none = r
first_of r (some best) = if before best r then best else r

unfoldable pub candidate : Time → List OutboxRow → Option OutboxRow
candidate now [] = none
candidate now (r ∷ rs) =
    let rest = candidate now rs in if is_claimable now r then some (first_of r rest) else rest

abbrev pub sixty_seconds : ℕ
sixty_seconds = 60_000_000_000

-- `least(attempts+1,2147483646)`.
abbrev pub one_more : ℤ → ℤ
one_more attempts =
    if lt_ℤ (attempts +ℤ pos 1) (pos 2_147_483_646) then attempts +ℤ pos 1 else pos 2_147_483_646

abbrev pub leased : String → Time → OutboxRow → OutboxRow
leased token now r = record r {
  lease = some (token, now + sixty_seconds);
  attempts = one_more r.attempts;
}

unfoldable pub lease_rows : String → String → Time → List OutboxRow → List OutboxRow
lease_rows id token now rows = map (λ r. if str_eq r.id id then leased token now r else r) rows

pub record Delivery : Type 0 where
  pub id : String
  pub lease : String
  pub recipient : NotificationRecipient
  pub attempts : ℤ

unfoldable pub claim_row : Work → String → Time → Option OutboxRow → Work × Option Delivery
claim_row w token now none = (w, none)
claim_row w token now (some r) = (
  record w { outbox = lease_rows r.id token now w.outbox },
  some (record {
    id = r.id;
    lease = token;
    recipient = r.recipient;
    attempts = one_more r.attempts;
  }),
)

-- `ClaimNotification`.
unfoldable pub claim_notification : Work → String → Time → Work × Option Delivery
claim_notification w token now = claim_row w token now (candidate now w.outbox)

abbrev pub holds : Option (String × Time) → String → Time → Bool
holds none token now = false
holds (some (t, until)) token now = str_eq t token && ltb now until

-- Pending, under this lease, which still runs.
abbrev pub is_held : String → String → Time → OutboxRow → Bool
is_held id token now r = str_eq r.id id && pending_row r && holds r.lease token now

abbrev pub still_bound : OutboxRow → RecipientRow → Bool
still_bound o r =
    backs o.recipient r
    && eq_ℤ r.recipient.parent_id o.recipient.parent_id
    && str_eq r.recipient.issuer o.recipient.issuer
    && str_eq r.recipient.subject o.recipient.subject
    && str_eq r.recipient.binding_id o.recipient.binding_id

abbrev pub may_deliver : Work → String → String → Time → OutboxRow → Bool
may_deliver w id token now o =
    is_held id token now o
    && any (still_bound o) w.recipients
    && any (active_parent o.recipient.parent_id) w.participants
    && not (str_eq o.recipient.binding_id "")

-- `NotificationAllowed`.
unfoldable pub notification_allowed : Work → String → String → Time → Bool
notification_allowed w id token now =
    any (may_deliver w id token now) w.outbox && entitled w.access_until now

pub record Settlement : Type 0 where
  pub id : String
  pub lease : String
  pub outcome : String
  pub error_code : String
  pub portal_id : String

unfoldable pub held_row : String → String → Time → List OutboxRow → Option OutboxRow
held_row id token now [] = none
held_row id token now (r ∷ rs) = if is_held id token now r then some r else held_row id token now rs

-- The consent is withdrawn for good.
abbrev pub ends_consent : Settlement → Bool
ends_consent v =
    str_eq v.outcome "cancelled"
    && (str_eq v.error_code "portal_denied" || str_eq v.error_code "recipient_revoked")

abbrev pub same_consent : NotificationRecipient → NotificationRecipient → Bool
same_consent a b =
    str_eq a.reference b.reference
    && str_eq a.subscription_id b.subscription_id
    && str_eq a.binding_id b.binding_id

abbrev pub sibling : OutboxRow → OutboxRow → Bool
sibling o other = not (str_eq other.id o.id) && same_consent other.recipient o.recipient

unfoldable pub end_consent : Work → OutboxRow → String → Time → Work
end_consent w o code now = record w {
  recipients = disable (same_consent o.recipient) w.recipients;
  outbox = cancel_rows (sibling o) code now w.outbox;
}

-- Settled for good, or pending again after the delay.
unfoldable pub settled : Settlement → ℤ → Time → OutboxRow → OutboxRow
settled v attempts now r =
    let again = str_eq v.outcome "retry" in
    record r {
      state = if again then "pending" else v.outcome;
      error_code = v.error_code;
      portal_id = v.portal_id;
      available_at = if again then now + notification_retry_delay attempts else now;
      lease = none;
      settled_at = if again || str_eq v.outcome "pending" then none else some now;
    }

unfoldable pub settle_rows : Settlement → ℤ → Time → List OutboxRow → List OutboxRow
settle_rows v attempts now rows =
    map (λ r. if str_eq r.id v.id then settled v attempts now r else r) rows

unfoldable pub settle_row : Work → Settlement → Time → Option OutboxRow → Work × Result (Unit {0})
settle_row w v now none = (w, err conflict)
settle_row w v now (some o) =
    let w' = if ends_consent v then end_consent w o v.error_code now else w in
    (record w' { outbox = settle_rows v o.attempts now w'.outbox }, ok tt)

-- `SettleNotification`.
unfoldable pub settle_notification : Work → Settlement → Time → Work × Result (Unit {0})
settle_notification w v now = settle_row w v now (held_row v.id v.lease now w.outbox)
