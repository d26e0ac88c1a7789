-- ===== src/Tasks/Queue.antt =====
-- The outbox under the calls of store.go and notifications.go (backend/internal/store): each call
-- takes every row a step, and adds rows at the end.
use family_quest.Base.{
  ℕ, zero, suc, ◌≡◌, refl, subst, Bool, true, ◌&&◌, List, [], ◌∷◌, ◌++◌, map, String, Option, none,
  some, all, arith, Bool-cases, inl, inr, if◌then◌else◌, get_elem?,
}
use family_quest.Domain.Dates.{Time}
use family_quest.Tasks.Tables.{OutboxRow, pending_row}
use family_quest.Tasks.Recipients.{cancelled, cancel_rows}
use family_quest.Tasks.Outbox.{is_claimable, is_held, candidate, first_of, before, held_row}
use family_quest.Tasks.Steps.{Call, RowStep, stays, is_cancelled}

-- The primary key of `notification_outbox`: an identifier stands at one position.
abbrev pub IsKeyed : List OutboxRow → Type 0
IsKeyed rows =
    (i j : ℕ) (a b : OutboxRow)
    → get_elem? rows i ≡ some a
    → get_elem? rows j ≡ some b
    → a.id ≡ b.id
    → i ≡ j

pub keyed_same :
    (rows : List OutboxRow) (i j : ℕ) (a b : OutboxRow)
    → IsKeyed rows
    → get_elem? rows i ≡ some a
    → get_elem? rows j ≡ some b
    → a.id ≡ b.id
    → a ≡ b
keyed_same rows i j a b key ha hb e = let place = key i j a b ha hb e in cc

-- Each row of the first list does a step, and the new rows follow.
pub data Steps (now : Time) (c : Call) (new : List OutboxRow)
    : List OutboxRow → List OutboxRow → Type 0 where
  added : Steps now c new [] new
  row :
      {r s : OutboxRow} {rs ss : List OutboxRow}
      → RowStep now c r s
      → Steps now c new rs ss
      → Steps now c new (r ∷ rs) (s ∷ ss)

pub Steps-same : (now : Time) (c : Call) (rows : List OutboxRow) → Steps now c [] rows rows
Steps-same now c [] = added
Steps-same now c (r ∷ rs) = row (stays refl) (Steps-same now c rs)

pub Steps-append :
    (now : Time) (c : Call) (rows new : List OutboxRow) → Steps now c new rows (rows ++ new)
Steps-append now c [] new = added
Steps-append now c (r ∷ rs) new = row (stays refl) (Steps-append now c rs new)

-- Rewritten rows, with no new one.
pub Steps-rows :
    (now : Time) (c : Call) (f : OutboxRow → OutboxRow) (rows : List OutboxRow)
    → ((i : ℕ) (r : OutboxRow) → get_elem? rows i ≡ some r → RowStep now c r (f r))
    → Steps now c [] rows (map f rows)
Steps-rows now c f [] step = added
Steps-rows now c f (r ∷ rs) step = row (step 0 r refl) (Steps-rows now c f rs (λ i. step (suc i)))

-- Rows rewritten twice.
pub Steps-rows_twice :
    (now : Time) (c : Call) (f g : OutboxRow → OutboxRow) (rows : List OutboxRow)
    → ((i : ℕ) (r : OutboxRow) → get_elem? rows i ≡ some r → RowStep now c r (g (f r)))
    → Steps now c [] rows (map g (map f rows))
Steps-rows_twice now c f g [] step = added
Steps-rows_twice now c f g (r ∷ rs) step =
    row (step 0 r refl) (Steps-rows_twice now c f g rs (λ i. step (suc i)))

pub Steps-cancel :
    (test : OutboxRow → Bool) (code : String) (now : Time) (c : Call) (rows : List OutboxRow)
    → Steps now c [] rows (cancel_rows test code now rows)
unfolding cancel_rows
Steps-cancel test code now c rows =
    Steps-rows now c (λ r. if pending_row r && test r then cancelled code now r else r) rows
      (λ i r h. elim (Bool-cases (pending_row r && test r)) [
        | inl hit ↦ rw hit (is_cancelled code (ground arith) refl)
        | inr miss ↦ rw miss (stays refl)
      ])

abbrev pub Stands : Time → List OutboxRow → OutboxRow → Type 0
Stands now rows c = (i : ℕ) × (get_elem? rows i ≡ some c) × (is_claimable now c ≡ true)

behind-Stands :
    (now : Time) (r : OutboxRow) (rs : List OutboxRow) (c : OutboxRow)
    → Stands now rs c
    → Stands now (r ∷ rs) c
behind-Stands now r rs c (i, place, fact) = (suc i, place, fact)

first-Stands :
    (now : Time) (r : OutboxRow) (rs : List OutboxRow) (rest : Option OutboxRow) (c : OutboxRow)
    → is_claimable now r ≡ true
    → ((d : OutboxRow) → rest ≡ some d → Stands now rs d)
    → first_of r rest ≡ c
    → Stands now (r ∷ rs) c
first-Stands now r rs none c open_row ih h = (0, cc, ground arith)
first-Stands now r rs (some d) c open_row ih h = elim (Bool-cases (before d r)) [
  | inl later ↦ behind-Stands now r rs c (ih c (ground arith))
  | inr first ↦ (0, ground arith, ground arith)
]

-- A row that a query returns stands in the table, and passes the test.
pub candidate-Stands :
    (now : Time) (rows : List OutboxRow) (c : OutboxRow)
    → candidate now rows ≡ some c
    → Stands now rows c
unfolding candidate
candidate-Stands now [] c h = cc
candidate-Stands now (r ∷ rs) c h = elim (Bool-cases (is_claimable now r)) [
  | inl hit ↦
      first-Stands now r rs (candidate now rs) c hit (candidate-Stands now rs) (ground arith)
  | inr miss ↦ behind-Stands now r rs c (candidate-Stands now rs c (rw miss at h))
]

pub held_row-row :
    (id token : String) (now : Time) (rows : List OutboxRow) (c : OutboxRow)
    → held_row id token now rows ≡ some c
    → (i : ℕ) × (get_elem? rows i ≡ some c) × (is_held id token now c ≡ true)
unfolding held_row
held_row-row id token now [] c h = cc
held_row-row id token now (r ∷ rs) c h = elim (Bool-cases (is_held id token now r)) [
  | inl hit ↦ (0, ground arith, ground arith)
  | inr miss ↦
      let (i, place, fact) = held_row-row id token now rs c (rw miss at h) in (suc i, place, fact)
]

-- What each step keeps, and what the new rows have, all rows have.
pub Steps-all :
    (test : OutboxRow → Bool) (now : Time) (c : Call) (new : List OutboxRow)
    → ((r s : OutboxRow) → RowStep now c r s → test r ≡ true → test s ≡ true)
    → all test new ≡ true
    → {rows later : List OutboxRow} → Steps now c new rows later
    → all test rows ≡ true
    → all test later ≡ true
Steps-all test now c new keep fresh added h = fresh
Steps-all test now c new keep fresh (row {r = r} {s = s} step steps) h =
    ground (arith, keep r s step, Steps-all test now c new keep fresh steps)

-- The row at a position does a step.
pub Steps-get_elem :
    (now : Time) (c : Call) (new : List OutboxRow) {rows later : List OutboxRow}
    → Steps now c new rows later
    → (i : ℕ) (r : OutboxRow) → get_elem? rows i ≡ some r
    → (s : OutboxRow) × (get_elem? later i ≡ some s) × RowStep now c r s
Steps-get_elem now c new added i r h = cc
Steps-get_elem now c new (row {r = q} {s = s} step steps) zero r h =
    let same : q ≡ r = ground arith in (s, refl, subst (λ x. RowStep now c x s) same step)
Steps-get_elem now c new (row step steps) (suc i) r h = Steps-get_elem now c new steps i r h
