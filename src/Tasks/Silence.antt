-- ===== src/Tasks/Silence.antt =====
-- What a revocation promises a recipient (`RevokeNotificationRecipient` of
-- backend/internal/store/notifications.go).
use family_quest.Base.{
  ℕ, ◌≡◌, refl, ap, sym, ◌∙◌, eq_refl, Bool, true, false, ◌&&◌, String, Option, none, some, str_eq,
  eq_iff, all-get_elem, any-none, arith, Bool-cases, inl, inr, get_elem?,
}
use family_quest.Domain.Dates.{Time}
use family_quest.Tasks.Tables.{Work, OutboxRow, pending_row}
use family_quest.Tasks.Recipients.{of_reference, revoke_notification_recipient}
use family_quest.Tasks.Outbox.{
  Delivery, claim_notification, notification_allowed, may_deliver, settled,
}
use family_quest.Tasks.Steps.{Call, RowStep, stays, is_cancelled, is_leased, is_settled}
use family_quest.Tasks.Queue.{IsKeyed, keyed_same, candidate-Stands}
use family_quest.Tasks.Calls.{Reach}
use family_quest.Tasks.Events.{Reach-IsKeyed, Reach-row}
use family_quest.Tasks.Claims.{claim-some}
use family_quest.Tasks.Muted.{
  silent, IsSilent, no_opt_in, disable-all-muted, cancel_rows-silent, Reach-IsSilent,
}

revoke-IsSilent :
    (ref : String) (w : Work) (now : Time) → IsSilent ref (revoke_notification_recipient w ref now)
unfolding revoke_notification_recipient
revoke-IsSilent ref w now = record {
  recipients = disable-all-muted ref w.recipients;
  events = cancel_rows-silent ref "recipient_revoked" now w.outbox;
}

-- The rows of an event keep its identifier and its recipient.
abbrev is_event_of : String → String → OutboxRow → Bool
is_event_of id ref r = str_eq r.id id && of_reference ref r

keeps_event :
    (id ref : String) (may : Time → Call → Bool) (now : Time) (c : Call) (r s : OutboxRow)
    → may now c ≡ true
    → RowStep now c r s
    → is_event_of id ref r ≡ true
    → is_event_of id ref s ≡ true
unfolding settled
keeps_event id ref may now c r s ok (stays e) h = rw e h
keeps_event id ref may now c r s ok (is_cancelled code p e) h = rw e h
keeps_event id ref may now c r s ok (is_leased token by p e) h = rw e h
keeps_event id ref may now c r s ok (is_settled v by p e) h = rw e h

abbrev pub delivers_to : String → Option Delivery → Bool
delivers_to ref none = false
delivers_to ref (some d) = str_eq d.recipient.reference ref

silent_delivery :
    (ref : String) (u : Work) (token : String) (now : Time) (given : Option Delivery)
    → IsSilent ref u
    → (claim_notification u token now).1 ≡ given
    → delivers_to ref given ≡ false
silent_delivery ref u token now none s got = refl
silent_delivery ref u token now (some d) s got =
    let (c, found, ids, who, rows) = claim-some u token now d got in
    let (i, place, fact) = candidate-Stands now u.outbox c found in
    let quiet = all-get_elem (silent ref) u.outbox i c s.events place in
    let theirs : c.recipient.reference ≡ d.recipient.reference = ap (λ v. v.reference) (sym who) in
    ground (arith, eq_iff c.recipient.reference ref, eq_iff d.recipient.reference ref)

silent_allowed :
    (ref : String) (u : Work) (id token : String) (now : Time) (i : ℕ) (r : OutboxRow)
    → IsSilent ref u
    → IsKeyed u.outbox
    → get_elem? u.outbox i ≡ some r
    → is_event_of id ref r ≡ true
    → notification_allowed u id token now ≡ false
unfolding notification_allowed
silent_allowed ref u id token now i r s key place h =
    let quiet = all-get_elem (silent ref) u.outbox i r s.events place in
    let no_row = any-none (may_deliver u id token now) u.outbox (λ j o there.
      elim (Bool-cases (str_eq o.id id)) [
        | inl hit ↦
            let ids : r.id ≡ o.id = ground (arith, eq_iff r.id id, eq_iff o.id id) in
            let same : r ≡ o = keyed_same u.outbox i j r o key place there ids in
            let over : pending_row o ≡ false = ap pending_row (sym same) ∙ ground arith in
            ground (arith, over)
        | inr miss ↦ ground (arith, miss)
      ]) in
    ground (arith, no_row)

-- After a revocation, and until a subscription for its reference is opened, whatever other calls
-- come, no event that was stored for the reference may be delivered, and no claim returns one for
-- it; where the identifiers of the outbox are different.
pub revoked_silent :
    (w : Work) (ref : String) (now : Time) (i : ℕ) (r : OutboxRow) {u : Work}
    → IsKeyed (revoke_notification_recipient w ref now).outbox
    → get_elem? (revoke_notification_recipient w ref now).outbox i ≡ some r
    → r.recipient.reference ≡ ref
    → Reach (no_opt_in ref) (revoke_notification_recipient w ref now) u
    → (token : String) (later : Time)
    → (notification_allowed u r.id token later ≡ false)
      × (delivers_to ref (claim_notification u token later).1 ≡ false)
revoked_silent w ref now i r {u} key place mine run token later =
    let quiet = Reach-IsSilent ref key run (revoke-IsSilent ref w now) in
    let event : is_event_of r.id ref r ≡ true =
      ground (arith, eq_refl r.id, eq_iff r.recipient.reference ref) in
    let (s, after, fact) =
      Reach-row (no_opt_in ref) (is_event_of r.id ref) (keeps_event r.id ref (no_opt_in ref)) i r
        key run place event in
    (
      silent_allowed ref u r.id token later i s quiet (Reach-IsKeyed run key) after fact,
      silent_delivery ref u token later (claim_notification u token later).1 quiet refl,
    )
