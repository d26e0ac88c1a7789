-- ===== src/Tasks/Steps.antt =====
-- The life of one row of the outbox, apart from how the queries of store/notifications.go bring its
-- steps about.
use family_quest.Tasks.Tables.{NotificationRecipient}
use family_quest.Base.{
  Bool, ℤ, ◌+◌, ◌≤◌, ◌<◌, ◌≡◌, refl, true, false, String, Option, none, some, str_eq, arith,
  Bool-cases, inl, inr, if◌then◌else◌, leb,
}
use family_quest.Domain.Dates.{Time}
use family_quest.Domain.Notification.{
  hour, notification_retry_delay, notification_retry_delay_bounds,
}
use family_quest.Tasks.Tables.{OutboxRow, pending_row}
use family_quest.Tasks.Recipients.{cancelled}
use family_quest.Tasks.Outbox.{
  Settlement, sixty_seconds, is_claimable, is_held, leased, settled, lease_over, holds,
}

-- The calls, with what they are given: `complete` carries the random identifiers of the events,
-- `claim` the random token.
pub data Call : Type 0 where
  complete : (String → String) → ℤ → ℤ → Call
  confirm : ℤ → ℤ → ℤ → String → Call
  recipient : NotificationRecipient → Bool → Call
  revoke : String → Call
  claim : String → Call
  settle : Settlement → Call

-- What a call does to a row at a time, in full.
pub data RowStep (now : Time) (c : Call) (r s : OutboxRow) : Type 0 where
  stays : s ≡ r → RowStep now c r s
  is_cancelled :
      (code : String) → pending_row r ≡ true → s ≡ cancelled code now r → RowStep now c r s
  is_leased :
      (token : String)
      → c ≡ claim token
      → is_claimable now r ≡ true
      → s ≡ leased token now r
      → RowStep now c r s
  is_settled :
      (v : Settlement)
      → c ≡ settle v
      → is_held v.id v.lease now r ≡ true
      → s ≡ settled v r.attempts now r
      → RowStep now c r s

-- What a client of the queue knows of an event: that it waits until a time, that a token holds it
-- until a time, or that it is done.
pub data Phase : Type 0 where
  waiting : Time → Phase
  held : String → Time → Phase
  done : Phase

unfoldable pub lease_phase : Time → Option (String × Time) → Phase
lease_phase from none = waiting from
lease_phase from (some (token, until)) = held token until

unfoldable pub phase : OutboxRow → Phase
phase r = if pending_row r then lease_phase r.available_at r.lease else done

-- The steps that the queue promises. An event that is given back waits an hour at most.
pub data PhaseStep (now : Time) : Phase → Phase → Type 0 where
  stay : {p : Phase} → PhaseStep now p p
  drop_waiting : {from : Time} → PhaseStep now (waiting from) done
  drop_held : {token : String} {until : Time} → PhaseStep now (held token until) done
  take :
      {from : Time} {token : String}
      → from ≤ now
      → PhaseStep now (waiting from) (held token (now + sixty_seconds))
  take_over :
      {old token : String} {until : Time}
      → until ≤ now
      → PhaseStep now (held old until) (held token (now + sixty_seconds))
  finish : {token : String} {until : Time} → now < until → PhaseStep now (held token until) done
  give_back :
      {token : String} {until from : Time}
      → now < until
      → now ≤ from
      → from ≤ now + hour
      → PhaseStep now (held token until) (waiting from)

drop-PhaseStep :
    (now from : Time) (l : Option (String × Time)) → PhaseStep now (lease_phase from l) done
unfolding lease_phase
drop-PhaseStep now from none = drop_waiting
drop-PhaseStep now from (some (token, until)) = drop_held

lease-PhaseStep :
    (now from : Time) (l : Option (String × Time)) (token : String)
    → leb from now ≡ true
    → lease_over l now ≡ true
    → PhaseStep now (lease_phase from l) (held token (now + sixty_seconds))
unfolding lease_phase
lease-PhaseStep now from none token h over = take (ground arith)
lease-PhaseStep now from (some (old, until)) token h over = take_over (ground arith)

finish-PhaseStep :
    (now from : Time) (l : Option (String × Time)) (token : String)
    → holds l token now ≡ true
    → PhaseStep now (lease_phase from l) done
unfolding lease_phase
finish-PhaseStep now from none token h = cc
finish-PhaseStep now from (some (t, until)) token h = finish (ground arith)

give_back-PhaseStep :
    (now from : Time) (l : Option (String × Time)) (token : String) (later : Time)
    → holds l token now ≡ true
    → now ≤ later
    → later ≤ now + hour
    → PhaseStep now (lease_phase from l) (waiting later)
unfolding lease_phase
give_back-PhaseStep now from none token later h lo hi = cc
give_back-PhaseStep now from (some (t, until)) token later h lo hi = give_back (ground arith) lo hi

pub phase-pending :
    (r : OutboxRow) → pending_row r ≡ true → phase r ≡ lease_phase r.available_at r.lease
unfolding phase
phase-pending r h = rw h refl

pub phase-done : (r : OutboxRow) → pending_row r ≡ false → phase r ≡ done
unfolding phase
phase-done r h = rw h refl

-- A held row is pending.
held_pending :
    (id token : String) (now : Time) (r : OutboxRow)
    → is_held id token now r ≡ true
    → (pending_row r ≡ true) × (holds r.lease token now ≡ true)
held_pending id token now r h = ground arith

retried-PhaseStep :
    (v : Settlement) (now : Time) (r : OutboxRow)
    → is_held v.id v.lease now r ≡ true
    → str_eq v.outcome "retry" ≡ true
    → PhaseStep now (phase r) (phase (settled v r.attempts now r))
unfolding settled phase lease_phase
retried-PhaseStep v now r h again =
    let fact = held_pending v.id v.lease now r h in
    let delays = notification_retry_delay_bounds r.attempts r.attempts in
    rw (again, fact.0)
      (give_back-PhaseStep now r.available_at r.lease v.lease
        (now + notification_retry_delay r.attempts) fact.1 (omega arith) (omega (arith, delays.1)))

ended-PhaseStep :
    (v : Settlement) (now : Time) (r : OutboxRow)
    → is_held v.id v.lease now r ≡ true
    → str_eq v.outcome "retry" ≡ false
    → PhaseStep now (phase r) (phase (settled v r.attempts now r))
unfolding settled phase lease_phase
ended-PhaseStep v now r h ends =
    let fact = held_pending v.id v.lease now r h in
    elim (Bool-cases (str_eq v.outcome "pending")) [
      | inl open_again ↦
          rw (ends, open_again, fact.0)
            (give_back-PhaseStep now r.available_at r.lease v.lease now fact.1 (omega arith)
              (omega arith))
      | inr closed ↦
          rw (ends, closed, fact.0) (finish-PhaseStep now r.available_at r.lease v.lease fact.1)
    ]

settled-PhaseStep :
    (v : Settlement) (now : Time) (r : OutboxRow)
    → is_held v.id v.lease now r ≡ true
    → PhaseStep now (phase r) (phase (settled v r.attempts now r))
settled-PhaseStep v now r h = elim (Bool-cases (str_eq v.outcome "retry")) [
  | inl again ↦ retried-PhaseStep v now r h again
  | inr ends ↦ ended-PhaseStep v now r h ends
]

pub RowStep-PhaseStep :
    {now : Time} {c : Call} {r s : OutboxRow}
    → RowStep now c r s
    → PhaseStep now (phase r) (phase s)
unfolding lease_phase
RowStep-PhaseStep (stays e) = rw e stay
RowStep-PhaseStep {now} {c} {r} (is_cancelled code p e) =
    rw (e, phase-pending r p, phase-done (cancelled code now r) refl)
      (drop-PhaseStep now r.available_at r.lease)
RowStep-PhaseStep {now} {c} {r} (is_leased token by p e) =
    let open_row : pending_row r ≡ true = ground arith in
    rw (e, phase-pending r open_row, phase-pending (leased token now r) open_row)
      (lease-PhaseStep now r.available_at r.lease token (ground arith) (ground arith))
RowStep-PhaseStep {now} {c} {r} (is_settled v by p e) = rw e (settled-PhaseStep v now r p)

-- A row that is not pending does nothing.
pub RowStep-settled :
    {now : Time} {c : Call} {r s : OutboxRow} → RowStep now c r s → pending_row r ≡ false → s ≡ r
RowStep-settled (stays e) h = e
RowStep-settled (is_cancelled code p e) h = cc
RowStep-settled (is_leased token by p e) h = ground arith
RowStep-settled (is_settled v by p e) h = ground arith
