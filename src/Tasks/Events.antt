-- ===== src/Tasks/Events.antt =====
-- The life of an event of the outbox over the calls of store.go and notifications.go
-- (backend/internal/store).
use family_quest.Base.{
  ℕ, ◌≡◌, ap, ◌∙◌, Bool, true, false, List, [], ◌∷◌, map, String, ℤ, some, all, any, Bool-cases,
  inl, inr, get_elem?,
}
use family_quest.Domain.Dates.{Time}
use family_quest.Store.Db.{ParticipantRow}
use family_quest.Tasks.Tables.{Work, RecipientRow, OutboxRow, pending_row}
use family_quest.Tasks.Lifecycle.{events_for, is_notified, completable}
use family_quest.Tasks.Steps.{
  Call, complete, confirm, recipient, revoke, claim, settle, RowStep, RowStep-PhaseStep,
  RowStep-settled, Phase, PhaseStep, waiting, phase, lease_phase,
}
use family_quest.Tasks.Queue.{IsKeyed, Steps, added, row, Steps-get_elem, Steps-all}
use family_quest.Tasks.Calls.{apply_call, Reach, here, next, new_rows, call-Steps}

-- The queue that is promised: each event does a step of its phases, and the new events wait from
-- now on.
pub data QueueStep (now : Time) : List Phase → List Phase → Type 0 where
  arrive : QueueStep now [] []
  join : {qs : List Phase} → QueueStep now [] qs → QueueStep now [] (waiting now ∷ qs)
  move :
      {p q : Phase} {ps qs : List Phase}
      → PhaseStep now p q
      → QueueStep now ps qs
      → QueueStep now (p ∷ ps) (q ∷ qs)

events-QueueStep :
    (new_id : String → String) (people : List ParticipantRow) (task : ℤ) (now : Time)
    (rs : List RecipientRow)
    → QueueStep now [] (map phase (events_for new_id people task now rs))
unfolding events_for phase lease_phase
events-QueueStep new_id people task now [] = arrive
events-QueueStep new_id people task now (r ∷ rs) = elim (Bool-cases (is_notified people r)) [
  | inl told ↦ rw told (join (events-QueueStep new_id people task now rs))
  | inr silent ↦ rw silent (events-QueueStep new_id people task now rs)
]

new_rows-QueueStep :
    (w : Work) (now : Time) (c : Call) → QueueStep now [] (map phase (new_rows w now c))
unfolding new_rows
new_rows-QueueStep w now (complete new_id id who) =
    elim (Bool-cases (any (completable w id who) w.tasks)) [
      | inl found ↦ rw found (events-QueueStep new_id w.participants id now w.recipients)
      | inr missing ↦ rw missing arrive
    ]
new_rows-QueueStep w now (confirm id who rating comment) = arrive
new_rows-QueueStep w now (recipient v enabled) = arrive
new_rows-QueueStep w now (revoke ref) = arrive
new_rows-QueueStep w now (claim token) = arrive
new_rows-QueueStep w now (settle v) = arrive

Steps-QueueStep :
    (now : Time) (c : Call) (new : List OutboxRow) {rows later : List OutboxRow}
    → Steps now c new rows later
    → QueueStep now [] (map phase new)
    → QueueStep now (map phase rows) (map phase later)
Steps-QueueStep now c new added h = h
Steps-QueueStep now c new (row step steps) h =
    move (RowStep-PhaseStep step) (Steps-QueueStep now c new steps h)

-- Every call on tasks and notifications, at any time, refines the promised queue: each event
-- stays, is taken for sixty seconds when it is due or its lease is over, is finished or given
-- back for at most an hour under a lease that runs, or is dropped, and new events wait from the
-- time of the call; where the identifiers of the outbox are different.
pub call_refines :
    (w : Work) (now : Time) (c : Call)
    → IsKeyed w.outbox
    → QueueStep now (map phase w.outbox) (map phase (apply_call w now c).outbox)
call_refines w now c key =
    Steps-QueueStep now c (new_rows w now c) (call-Steps w now c key) (new_rows-QueueStep w now c)

pub Reach-IsKeyed :
    {may : Time → Call → Bool} {w u : Work} → Reach may w u → IsKeyed w.outbox → IsKeyed u.outbox
Reach-IsKeyed here key = key
Reach-IsKeyed (next run now c ok later) key = later

-- Through any calls, an event that is not pending stays exactly as it is; where the identifiers
-- of the outbox are different.
pub settled_stays :
    {may : Time → Call → Bool} {w u : Work} (i : ℕ) (r : OutboxRow)
    → IsKeyed w.outbox
    → Reach may w u
    → get_elem? w.outbox i ≡ some r
    → pending_row r ≡ false
    → get_elem? u.outbox i ≡ some r
settled_stays i r key here h over = h
settled_stays {may} {w} i r key (next {u} run now c ok later) h over =
    let before = settled_stays i r key run h over in
    let (s, place, step) =
      Steps-get_elem now c (new_rows u now c) (call-Steps u now c (Reach-IsKeyed run key)) i r
        before in
    place ∙ ap some (RowStep-settled step over)

-- What the steps of rows keep, the tables keep.
module _ (may : Time → Call → Bool) (test : OutboxRow → Bool)
    (keep : (now : Time) (c : Call) (r s : OutboxRow)
      → may now c ≡ true
      → RowStep now c r s
      → test r ≡ true
      → test s ≡ true) where
  pub Reach-all :
      ((w : Work) (now : Time) (c : Call) → may now c ≡ true → all test (new_rows w now c) ≡ true)
      → {w u : Work} → IsKeyed w.outbox
      → Reach may w u
      → all test w.outbox ≡ true
      → all test u.outbox ≡ true
  Reach-all fresh key here h = h
  Reach-all fresh key (next {u} run now c ok later) h =
      Steps-all test now c (new_rows u now c) (λ r s. keep now c r s ok) (fresh u now c ok)
        (call-Steps u now c (Reach-IsKeyed run key)) (Reach-all fresh key run h)

  pub Reach-row :
      {w u : Work} (i : ℕ) (r : OutboxRow)
      → IsKeyed w.outbox
      → Reach may w u
      → get_elem? w.outbox i ≡ some r
      → test r ≡ true
      → (s : OutboxRow) × (get_elem? u.outbox i ≡ some s) × (test s ≡ true)
  Reach-row i r key here place h = (r, place, h)
  Reach-row i r key (next {u} run now c ok later) place h =
      let (q, between, fact) = Reach-row i r key run place h in
      let (s, after, step) =
        Steps-get_elem now c (new_rows u now c) (call-Steps u now c (Reach-IsKeyed run key)) i q
          between in
      (s, after, keep now c q s ok step fact)
