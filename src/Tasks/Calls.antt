-- ===== src/Tasks/Calls.antt =====
-- The calls of store.go and notifications.go (backend/internal/store) that change tasks and the
-- outbox, and the tables that they lead to.
use family_quest.Base.{
  ℕ, ◌≡◌, refl, Bool, true, false, ◌&&◌, List, [], String, ℤ, Option, none, some, str_eq, eq_iff,
  any, arith, Bool-cases, inl, inr, if◌then◌else◌, get_elem?,
}
use family_quest.Domain.Dates.{Time}
use family_quest.Domain.Principals.{role_parent}
use family_quest.Store.Db.{ParticipantRow}
use family_quest.Tasks.Tables.{Work, NotificationRecipient, OutboxRow, pending_row}
use family_quest.Tasks.Lifecycle.{complete_task, confirm_task, events_for, completable}
use family_quest.Tasks.Recipients.{
  cancelled, cancel_rows, set_notification_recipient, revoke_notification_recipient, enable_for,
  with_recipients, parent_row, entitled, is_orphan, of_reference, put_recipient, disable,
  is_subscription,
}
use family_quest.Tasks.Outbox.{
  Settlement, is_held, leased, settled, lease_rows, settle_rows, candidate, claim_notification,
  settle_notification, claim_row, held_row, settle_row, end_consent, ends_consent, sibling,
}
use family_quest.Tasks.Steps.{
  Call, complete, confirm, recipient, revoke, claim, settle, RowStep, stays, is_cancelled,
  is_leased, is_settled,
}
use family_quest.Tasks.Queue.{
  IsKeyed, keyed_same, Steps, Steps-same, Steps-append, Steps-rows, Steps-rows_twice, Steps-cancel,
  candidate-Stands, held_row-row,
}

unfoldable pub apply_call : Work → Time → Call → Work
apply_call w now (complete new_id id who) = (complete_task new_id w id who now).0
apply_call w now (confirm id who rating comment) = (confirm_task w id who rating comment now).0
apply_call w now (recipient v enabled) = (set_notification_recipient w v enabled now).0
apply_call w now (revoke ref) = revoke_notification_recipient w ref now
apply_call w now (claim token) = (claim_notification w token now).0
apply_call w now (settle v) = (settle_notification w v now).0

-- The tables after calls, each of which passes a test. A call whose rows break the primary key of
-- the outbox fails in the database, so it leads nowhere.
pub data Reach (may : Time → Call → Bool) (w : Work) : Work → Type 0 where
  here : Reach may w w
  next :
      {u : Work}
      → Reach may w u
      → (now : Time) (c : Call) → may now c ≡ true
      → IsKeyed (apply_call u now c).outbox
      → Reach may w (apply_call u now c)

-- The rows that a call adds.
unfoldable pub new_rows : Work → Time → Call → List OutboxRow
new_rows w now (complete new_id id who) =
    if any (completable w id who) w.tasks
    then events_for new_id w.participants id now w.recipients
    else []
new_rows w now _ = []

complete-Steps :
    (w : Work) (now : Time) (new_id : String → String) (id who : ℤ)
    → Steps now
        (complete new_id id who)
        (new_rows w now (complete new_id id who))
        w.outbox
        (complete_task new_id w id who now).0.outbox
unfolding complete_task new_rows
complete-Steps w now new_id id who = elim (Bool-cases (any (completable w id who) w.tasks)) [
  | inl found ↦ rw found (
      Steps-append now (complete new_id id who) w.outbox
        (events_for new_id w.participants id now w.recipients))
  | inr missing ↦ rw missing (Steps-same now (complete new_id id who) w.outbox)
]

pub confirm-outbox :
    (w : Work) (now : Time) (id who rating : ℤ) (comment : String)
    → (confirm_task w id who rating comment now).0.outbox ≡ w.outbox
unfolding confirm_task
confirm-outbox w now id who rating comment = ground arith

enable-Steps :
    (w : Work) (v : NotificationRecipient) (now : Time) (c : Call) (p : Option ParticipantRow)
    → Steps now c [] w.outbox (enable_for w v now p).0.outbox
unfolding enable_for with_recipients
enable-Steps w v now c none = Steps-same now c w.outbox
enable-Steps w v now c (some p) = elim (Bool-cases (p.active && str_eq p.role role_parent)) [
  | inl parent ↦ rw parent (
      Steps-cancel (is_orphan v.reference (put_recipient v w.recipients)) "recipient_revoked" now c
        w.outbox)
  | inr other ↦ rw other (Steps-same now c w.outbox)
]

recipient-Steps :
    (w : Work) (now : Time) (c : Call) (v : NotificationRecipient) (enabled : Bool)
    → Steps now c [] w.outbox (set_notification_recipient w v enabled now).0.outbox
unfolding set_notification_recipient with_recipients
recipient-Steps w now c v true = elim (Bool-cases (entitled w.access_until now)) [
  | inl open_access ↦
      rw open_access (enable-Steps w v now c (parent_row v.parent_id w.participants))
  | inr closed ↦ rw closed (Steps-same now c w.outbox)
]
recipient-Steps w now c v false =
    Steps-cancel (is_orphan v.reference (disable (is_subscription v) w.recipients))
      "recipient_revoked" now c w.outbox

claimed-Steps :
    (w : Work) (now : Time) (token : String) (c : Option OutboxRow)
    → IsKeyed w.outbox
    → candidate now w.outbox ≡ c
    → Steps now (claim token) [] w.outbox (claim_row w token now c).0.outbox
unfolding claim_row lease_rows
claimed-Steps w now token none key e = Steps-same now (claim token) w.outbox
claimed-Steps w now token (some c) key e =
    let (j, place, fact) = candidate-Stands now w.outbox c e in
    Steps-rows now (claim token) (λ r. if str_eq r.id c.id then leased token now r else r) w.outbox
      (λ i r h. elim (Bool-cases (str_eq r.id c.id)) [
        | inl hit ↦
            let same : r ≡ c = keyed_same w.outbox i j r c key h place ((eq_iff r.id c.id).0 hit) in
            rw hit (is_leased token refl (rw same fact) refl)
        | inr miss ↦ rw miss (stays refl)
      ])

module _ (w : Work) (now : Time) (v : Settlement) (o : OutboxRow) (key : IsKeyed w.outbox) (j : ℕ)
    (place : get_elem? w.outbox j ≡ some o) (fact : is_held v.id v.lease now o ≡ true) where
  abbrev settle_one : OutboxRow → OutboxRow
  settle_one r = if str_eq r.id v.id then settled v o.attempts now r else r

  abbrev cancel_one : OutboxRow → OutboxRow
  cancel_one r = if pending_row r && sibling o r then cancelled v.error_code now r else r

  -- The row that is settled is the one that was found.
  found_row :
      (i : ℕ) (r : OutboxRow) → get_elem? w.outbox i ≡ some r → str_eq r.id v.id ≡ true → r ≡ o
  found_row i r h hit =
      let ids : r.id ≡ o.id = ground (arith, eq_iff r.id v.id, eq_iff o.id v.id) in
      keyed_same w.outbox i j r o key h place ids

  settle_one-RowStep :
      (i : ℕ) (r : OutboxRow)
      → get_elem? w.outbox i ≡ some r
      → RowStep now (settle v) r (settle_one r)
  settle_one-RowStep i r h = elim (Bool-cases (str_eq r.id v.id)) [
    | inl hit ↦
        let same : r ≡ o = found_row i r h hit in rw (hit, same) (is_settled v refl fact refl)
    | inr miss ↦ rw miss (stays refl)
  ]

  cancel_one-RowStep :
      (i : ℕ) (r : OutboxRow)
      → get_elem? w.outbox i ≡ some r
      → RowStep now (settle v) r (settle_one (cancel_one r))
  cancel_one-RowStep i r h = elim (Bool-cases (pending_row r && sibling o r)) [
    | inl hit ↦
        let other : str_eq r.id v.id ≡ false =
          ground (arith, eq_iff r.id v.id, eq_iff o.id v.id, eq_iff r.id o.id) in
        rw (hit, other) (is_cancelled v.error_code (ground arith) refl)
    | inr miss ↦ rw miss (settle_one-RowStep i r h)
  ]

  found-Steps : Steps now (settle v) [] w.outbox (settle_row w v now (some o)).0.outbox
  unfolding settle_row settle_rows end_consent cancel_rows
  found-Steps = elim (Bool-cases (ends_consent v)) [
    | inl ends ↦
        rw ends (Steps-rows_twice now (settle v) cancel_one settle_one w.outbox cancel_one-RowStep)
    | inr keeps ↦ rw keeps (Steps-rows now (settle v) settle_one w.outbox settle_one-RowStep)
  ]

settled-Steps :
    (w : Work) (now : Time) (v : Settlement) (o : Option OutboxRow)
    → IsKeyed w.outbox
    → held_row v.id v.lease now w.outbox ≡ o
    → Steps now (settle v) [] w.outbox (settle_row w v now o).0.outbox
unfolding settle_row
settled-Steps w now v none key e = Steps-same now (settle v) w.outbox
settled-Steps w now v (some o) key e =
    let (j, place, fact) = held_row-row v.id v.lease now w.outbox o e in
    found-Steps w now v o key j place fact

-- Each call takes every row of the outbox a step, and adds new rows.
pub call-Steps :
    (w : Work) (now : Time) (c : Call)
    → IsKeyed w.outbox
    → Steps now c (new_rows w now c) w.outbox (apply_call w now c).outbox
unfolding new_rows apply_call revoke_notification_recipient claim_notification settle_notification
call-Steps w now (complete new_id id who) key = complete-Steps w now new_id id who
call-Steps w now (confirm id who rating comment) key =
    rw (confirm-outbox w now id who rating comment)
      (Steps-same now (confirm id who rating comment) w.outbox)
call-Steps w now (recipient v enabled) key = recipient-Steps w now (recipient v enabled) v enabled
call-Steps w now (revoke ref) key =
    Steps-cancel (of_reference ref) "recipient_revoked" now (revoke ref) w.outbox
call-Steps w now (claim token) key = claimed-Steps w now token (candidate now w.outbox) key refl
call-Steps w now (settle v) key =
    settled-Steps w now v (held_row v.id v.lease now w.outbox) key refl
