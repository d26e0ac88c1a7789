-- ===== src/Family/Stages.antt =====
-- The stages of a skill (`case "stage"` of `ApplyFamilyCommand`, backend/internal/domain/family.go).
use family_quest.Base.{
  ℕ, zero, suc, ◌≤◌, ◌≡◌, refl, true, List, [], ◌∷◌, ◌++◌, ℤ, pos, ◌+ℤ◌, wrap64, lt_ℤ, eq_ℤ_iff,
  str_eq, str_eq_excludes, if◌then◌else◌, arith, Bool-cases, inl, inr, append-nil, Option, Error,
}
use family_quest.Domain.Dates.{Time}
use family_quest.Domain.Principals.{Principal}
use family_quest.Family.Entry.{FamilyEntry, FamilyEvent, FamilyCommand}
use family_quest.Family.Command.{
  record_it, progress_verdict, stage_verdict, last_stage, is_stage, new_event,
}
use family_quest.Family.Outcomes.{
  Outcome, refused, repeated, recorded, shelved, agreed, apply_family_command-Outcome, Follows,
  here, next,
}

-- The stages that one participant has recorded, in the order of the history.
abbrev pub stages_of : ℤ → List FamilyEvent → List ℤ
stages_of actor [] = []
stages_of actor (v ∷ vs) =
    let rest = stages_of actor vs in if is_stage actor v then v.step ∷ rest else rest

-- 1, 2, …, k.
abbrev pub climb : ℕ → List ℤ
climb zero = []
climb (suc k) = climb k ++ pos (suc k) ∷ []

-- The participant has climbed the stages from the first, one by one, to the fourth at most.
abbrev pub IsLadder : ℤ → List FamilyEvent → Type 0
IsLadder actor events = (k : ℕ) × (k ≤ 4) × (stages_of actor events ≡ climb k)

stages_of-append :
    (actor : ℤ) (vs : List FamilyEvent) (v : FamilyEvent)
    → stages_of actor (vs ++ v ∷ []) ≡ stages_of actor vs ++ stages_of actor (v ∷ [])
stages_of-append actor [] v = refl
stages_of-append actor (w ∷ vs) v = ground (arith, stages_of-append actor vs v)

abbrev highest : ℤ → List ℤ → ℤ
highest stage [] = stage
highest stage (s ∷ ss) = highest (if lt_ℤ stage s then s else stage) ss

last_stage-highest :
    (actor stage : ℤ) (vs : List FamilyEvent)
    → last_stage actor stage vs ≡ highest stage (stages_of actor vs)
unfolding last_stage
last_stage-highest actor stage [] = refl
last_stage-highest actor stage (v ∷ vs) =
    ground (arith, last_stage-highest actor stage vs, last_stage-highest actor v.step vs)

highest-append :
    (stage s : ℤ) (ss : List ℤ)
    → highest stage (ss ++ s ∷ []) ≡ (if lt_ℤ (highest stage ss) s then s else highest stage ss)
highest-append stage s [] = refl
highest-append stage s (r ∷ rs) = highest-append (if lt_ℤ stage r then r else stage) s rs

highest-climb : (k : ℕ) → highest (pos 0) (climb k) ≡ pos k
highest-climb zero = refl
highest-climb (suc k) =
    ground (arith, highest-append (pos 0) (pos (suc k)) (climb k), highest-climb k)

last_stage-climb :
    (actor : ℤ) (events : List FamilyEvent) (k : ℕ)
    → stages_of actor events ≡ climb k
    → last_stage actor (pos 0) events ≡ pos k
last_stage-climb actor events k h = rw (last_stage-highest, h) (highest-climb k)

module _ (e : FamilyEntry) (actor : Principal) (cmd : FamilyCommand) (now : Time) where
  -- The only stage that is recorded is the next one.
  next_stage :
      (k : ℕ)
      → k ≤ 4
      → last_stage actor.participant_id (pos 0) e.events ≡ pos k
      → progress_verdict e actor cmd ≡ record_it
      → str_eq cmd.action "stage" ≡ true
      → (suc k ≤ 4) × (cmd.step ≡ pos (suc k))
  unfolding progress_verdict stage_verdict ◌+ℤ◌ wrap64
  next_stage k le last h s = ground (
    arith,
    str_eq_excludes cmd.action "stage" "checkin" refl,
    str_eq_excludes cmd.action "stage" "step" refl,
  )

module _ (e : FamilyEntry) (actor : Principal) (cmd : FamilyCommand) (now : Time) (who : ℤ) where
  own_stage :
      is_stage who (new_event actor cmd now) ≡ true
      → (str_eq cmd.action "stage" ≡ true) × (actor.participant_id ≡ who)
  unfolding new_event
  own_stage h = ground (arith, eq_ℤ_iff actor.participant_id who)

  recorded-IsLadder :
      progress_verdict e actor cmd ≡ record_it
      → IsLadder who e.events
      → IsLadder who (e.events ++ new_event actor cmd now ∷ [])
  unfolding new_event
  recorded-IsLadder h (k, le, same) = elim (Bool-cases (is_stage who (new_event actor cmd now))) [
    | inr other ↦ (k, le, rw (stages_of-append, other, append-nil) same)
    | inl own ↦
        let (stage, self) = own_stage own in
        let (room, reached) =
          next_stage e actor cmd now k le
            (last_stage-climb actor.participant_id e.events k (rw self same)) h stage in
        (suc k, room, rw (stages_of-append, own, same, reached))
  ]

  Outcome-IsLadder :
      {r : FamilyEntry × Option Error}
      → Outcome e actor cmd now r
      → IsLadder who e.events
      → IsLadder who r.0.events
  Outcome-IsLadder (refused x) h = h
  Outcome-IsLadder (repeated a v) h = h
  Outcome-IsLadder (recorded a v) h = recorded-IsLadder v h
  Outcome-IsLadder (shelved m c a) h = h
  Outcome-IsLadder (agreed p a k l) h = h

-- Through any sequence of commands of any actors, each participant's stages stay 1, 2, …, k with
-- k at most 4: none is skipped, repeated or passed.
pub Follows-IsLadder :
    {e e' : FamilyEntry} (who : ℤ) → Follows e e' → IsLadder who e.events → IsLadder who e'.events
Follows-IsLadder who here h = h
Follows-IsLadder who (next {e'} f actor cmd now) h =
    Outcome-IsLadder e' actor cmd now who (apply_family_command-Outcome e' actor cmd now)
      (Follows-IsLadder who f h)
