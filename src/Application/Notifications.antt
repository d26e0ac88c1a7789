-- ===== src/Application/Notifications.antt =====
-- The contract with the access service (backend/internal/application/notifications.go).
use family_quest.Base.{
  ℕ, suc, ◌+◌, Bool, true, false, not, ◌&&◌, ◌||◌, List, [], ◌∷◌, String, ℤ, pos, le_ℤ, str_eq,
  codes, ltb, leb, ◌==◌, one_of, trim_space, Result, ok, err, invalid_input, forbidden,
  unauthorized, fail_if, ◌>>◌, ◌>>=◌, Option, none, some, if◌then◌else◌,
}
use family_quest.Domain.Dates.{Time}
use family_quest.Domain.Principals.{role_parent}
use family_quest.Store.Db.{ParticipantRow}
use family_quest.Tasks.Tables.{Work, NotificationRecipient}
use family_quest.Tasks.Recipients.{set_notification_recipient, revoke_notification_recipient}
use family_quest.Tasks.Outbox.{
  Delivery, Settlement, claim_notification, notification_allowed, settle_notification,
}
use family_quest.Application.Access.{check_write_access}
use family_quest.Application.Tasks.{service_of}
use family_quest.Application.Cards.{get_participant}

-- `len` of a text: the bytes of its code points in UTF-8.
abbrev pub bytes_of : ℕ → ℕ
bytes_of c = if ltb c 0x80 then 1 else if ltb c 0x800 then 2 else if ltb c 0x10000 then 3 else 4

unfoldable pub sum_bytes : List ℕ → ℕ
sum_bytes [] = 0
sum_bytes (c ∷ cs) = bytes_of c + sum_bytes cs

unfoldable pub byte_length : String → ℕ
byte_length s = sum_bytes (codes s)

-- `strings.HasPrefix`.
unfoldable pub codes_prefix : List ℕ → List ℕ → Bool
codes_prefix xs [] = true
codes_prefix [] (y ∷ ys) = false
codes_prefix (x ∷ xs) (y ∷ ys) = x == y && codes_prefix xs ys

abbrev pub has_prefix : String → String → Bool
has_prefix s prefix = codes_prefix (codes s) (codes prefix)

abbrev pub is_dash_place : ℕ → Bool
is_dash_place i = i == 8 || i == 13 || i == 18 || i == 23

abbrev pub hex_code : ℕ → Bool
hex_code c = (leb b'0' c && leb c b'9') || (leb b'a' c && leb c b'f')

-- The characters from position `i` on. A character of several bytes is refused wherever it stands,
-- so that a position counts bytes and characters alike.
unfoldable pub id_from : ℕ → List ℕ → Bool
id_from i [] = true
id_from i (c ∷ cs) = (if is_dash_place i then c == b'-' else hex_code c) && id_from (suc i) cs

unfoldable pub valid_notification_id : String → Bool
valid_notification_id v = byte_length v == 36 && id_from 0 (codes v)

-- `len(v) == 0 || len(v) > limit`.
abbrev pub bad_length : ℕ → String → Bool
bad_length limit v = byte_length v == 0 || ltb limit (byte_length v)

abbrev pub bad_recipient : NotificationRecipient → Bool
bad_recipient v =
    bad_length 2048 v.issuer
    || str_eq (trim_space v.subject) ""
    || ltb 512 (byte_length v.subject)
    || le_ℤ v.parent_id (pos 0)
    || not (has_prefix v.binding_id "tgb_")
    || ltb (byte_length v.binding_id) 5
    || ltb 128 (byte_length v.binding_id)

-- `GetParticipant`, as far as the role is read.
abbrev pub known : Option ParticipantRow → Result ParticipantRow
known none = err unauthorized
known (some p) = ok p

abbrev pub check_parent : ParticipantRow → Result (Unit {0})
check_parent p = fail_if (not p.active || not (str_eq p.role role_parent)) forbidden

unfoldable pub may_subscribe : ℤ → Work → NotificationRecipient → Time → Result (Unit {0})
may_subscribe family w v now = do
  check_write_access (service_of family w now)
  fail_if (bad_recipient v) invalid_input
  p ← known (get_participant v.parent_id w.participants)
  check_parent p

unfoldable pub recipient_check : ℤ → Work → NotificationRecipient → Bool → Time → Result (Unit {0})
recipient_check family w v enabled now = do
  fail_if
      (le_ℤ family (pos 0)
        || bad_length 128 v.reference
        || not (valid_notification_id v.subscription_id))
      invalid_input
  elim enabled [ true ↦ may_subscribe family w v now | false ↦ ok tt ]

unfoldable pub set_checked :
    Work → NotificationRecipient → Bool → Time → Result (Unit {0}) → Work × Result (Unit {0})
set_checked w v enabled now (err e) = (w, err e)
set_checked w v enabled now (ok u) = set_notification_recipient w v enabled now

-- `Service.SetNotificationRecipient`.
unfoldable pub set_recipient :
    ℤ → Work → NotificationRecipient → Bool → Time → Work × Result (Unit {0})
set_recipient family w v enabled now =
    set_checked w v enabled now (recipient_check family w v enabled now)

-- `Service.RevokeNotificationRecipient`.
unfoldable pub revoke_recipient : ℤ → Work → String → Time → Work × Result (Unit {0})
revoke_recipient family w ref now =
    if le_ℤ family (pos 0) || bad_length 128 ref
    then (w, err invalid_input)
    else (revoke_notification_recipient w ref now, ok tt)

unfoldable pub delivered : Work × Option Delivery → Work × Result (Option Delivery)
delivered (w, d) = (w, ok d)

-- `Service.ClaimNotification`.
unfoldable pub claim_event : ℤ → Work → String → Time → Work × Result (Option Delivery)
claim_event family w token now =
    if le_ℤ family (pos 0) then (w, err forbidden) else delivered (claim_notification w token now)

-- `Service.NotificationAllowed`.
unfoldable pub event_allowed : ℤ → Work → String → String → Time → Result Bool
event_allowed family w id lease now =
    if le_ℤ family (pos 0) || not (valid_notification_id id) || not (valid_notification_id lease)
    then err invalid_input
    else ok (notification_allowed w id lease now)

abbrev pub error_codes : List String
error_codes =
    "" ∷ "transport" ∷ "portal_unavailable" ∷ "portal_denied" ∷ "portal_conflict" ∷ "portal_invalid"
    ∷ "identity_unavailable" ∷ "recipient_revoked" ∷ "authorization_revoked" ∷ "invalid_response"
    ∷ []

abbrev pub good_outcome : Settlement → Bool
good_outcome v =
    if str_eq v.outcome "delivered"
    then has_prefix v.portal_id "tgn_"
    else one_of v.outcome ("retry" ∷ "cancelled" ∷ "failed" ∷ [])

abbrev pub bad_settlement : ℤ → Settlement → Bool
bad_settlement family v =
    le_ℤ family (pos 0)
    || not (valid_notification_id v.id)
    || not (valid_notification_id v.lease)
    || ltb 128 (byte_length v.portal_id)
    || not (good_outcome v)
    || not (one_of v.error_code error_codes)

-- `Service.SettleNotification`.
unfoldable pub settle_event : ℤ → Work → Settlement → Time → Work × Result (Unit {0})
settle_event family w v now =
    if bad_settlement family v then (w, err invalid_input) else settle_notification w v now
