-- ===== src/Family/Outcomes.antt =====
-- Every result of `ApplyFamilyCommand` (backend/internal/domain/family.go) with what led to it.
use family_quest.Base.{
  ◌≡◌, refl, inl, inr, Bool, true, false, [], ◌∷◌, ◌++◌, if◌then◌else◌, str_eq, eq_ℤ, Error,
  conflict, forbidden, Option, none, some, Bool-cases,
}
use family_quest.Domain.Dates.{Time}
use family_quest.Domain.Principals.{Principal, is_parent, is_family_member}
use family_quest.Family.Entry.{FamilyEntry, FamilyCommand, can_edit}
use family_quest.Family.Command.{
  Verdict, record_it, already, refuse, settle, progress_verdict, progress_refusal, new_event,
  apply_progress, apply_archive, apply_approve, apply_family_command, is_archiving,
}
use family_quest.Family.Guards.{IsAllowed, progress_refusal-IsAllowed}

-- The card and error that come back, and why.
pub data Outcome (e : FamilyEntry) (actor : Principal) (cmd : FamilyCommand) (now : Time)
    : FamilyEntry × Option Error → Type 0 where
  refused : (x : Error) → Outcome e actor cmd now (e, some x)
  repeated :
      IsAllowed e actor cmd now
      → progress_verdict e actor cmd ≡ already
      → Outcome e actor cmd now (e, none)
  recorded :
      IsAllowed e actor cmd now
      → progress_verdict e actor cmd ≡ record_it
      → Outcome e actor cmd now
          (record e { events = e.events ++ new_event actor cmd now ∷ [] }, none)
  shelved :
      is_family_member actor ≡ true
      → can_edit e actor ≡ true
      → is_archiving cmd ≡ true
      → Outcome e actor cmd now (record e { archived = str_eq cmd.action "archive" }, none)
  agreed :
      is_parent actor ≡ true
      → str_eq cmd.action "approve" ≡ true
      → str_eq e.kind "proposal" ≡ true
      → e.archived ≡ false
      → Outcome e actor cmd now (record e { approved = true }, none)

module _ (e : FamilyEntry) (actor : Principal) (cmd : FamilyCommand) (now : Time) where
  settle-Outcome :
      (v : Verdict)
      → IsAllowed e actor cmd now
      → progress_verdict e actor cmd ≡ v
      → Outcome e actor cmd now (settle v e (new_event actor cmd now))
  unfolding settle
  settle-Outcome record_it allowed h = recorded allowed h
  settle-Outcome already allowed h = repeated allowed h
  settle-Outcome (refuse x) allowed h = refused x

  apply_progress-Outcome :
      (o : Option Error)
      → is_family_member actor ≡ true
      → eq_ℤ cmd.version e.version ≡ true
      → progress_refusal e actor cmd now ≡ o
      → Outcome e actor cmd now (apply_progress o e actor cmd now)
  unfolding apply_progress
  apply_progress-Outcome (some x) m v h = refused x
  apply_progress-Outcome none m v h =
      settle-Outcome (progress_verdict e actor cmd)
        (progress_refusal-IsAllowed e actor cmd now m v h) refl

  apply_archive-Outcome :
      is_family_member actor ≡ true
      → is_archiving cmd ≡ true
      → Outcome e actor cmd now (apply_archive e actor cmd)
  unfolding apply_archive
  apply_archive-Outcome m a = elim (Bool-cases (can_edit e actor)) [
    | inl allowed ↦ rw allowed (shelved m allowed a)
    | inr denied ↦ rw denied (refused forbidden)
  ]

  unarchived-Outcome :
      (shut : Bool)
      → is_parent actor ≡ true
      → str_eq cmd.action "approve" ≡ true
      → str_eq e.kind "proposal" ≡ true
      → e.archived ≡ shut
      → Outcome e actor cmd now
          (if shut then (e, some conflict) else (record e { approved = true }, none))
  unarchived-Outcome true p a k h = refused conflict
  unarchived-Outcome false p a k h = agreed p a k h

  apply_approve-Outcome :
      str_eq cmd.action "approve" ≡ true → Outcome e actor cmd now (apply_approve e actor)
  unfolding apply_approve
  apply_approve-Outcome a = elim (Bool-cases (is_parent actor)) [
    | inr child ↦ rw child (refused forbidden)
    | inl parent ↦ elim (Bool-cases (str_eq e.kind "proposal")) [
      | inr other ↦ rw (parent, other) (refused conflict)
      | inl proposal ↦ rw (parent, proposal) (unarchived-Outcome e.archived parent a proposal refl)
    ]
  ]

  -- A command is refused and changes nothing, finds its mark in place and changes nothing, appends
  -- the actor's event, archives or restores, or approves: each under its conditions.
  pub apply_family_command-Outcome : Outcome e actor cmd now (apply_family_command e actor cmd now)
  unfolding apply_family_command
  apply_family_command-Outcome = elim (Bool-cases (is_family_member actor)) [
    | inr stranger ↦ rw stranger (refused forbidden)
    | inl member ↦ elim (Bool-cases (eq_ℤ cmd.version e.version)) [
      | inr stale ↦ rw (member, stale) (refused conflict)
      | inl fresh ↦ elim (Bool-cases (is_archiving cmd)) [
        | inl shelf ↦ rw (member, fresh, shelf) (apply_archive-Outcome member shelf)
        | inr work ↦ elim (Bool-cases (str_eq cmd.action "approve")) [
          | inl approve ↦ rw (member, fresh, work, approve) (apply_approve-Outcome approve)
          | inr progress ↦
              rw (member, fresh, work, progress)
                (apply_progress-Outcome (progress_refusal e actor cmd now) member fresh refl)
        ]
      ]
    ]
  ]

-- A history: any commands of any actors at any times, from one card to another.
pub data Follows (e : FamilyEntry) : FamilyEntry → Type 0 where
  here : Follows e e
  next :
      {e' : FamilyEntry}
      → Follows e e'
      → (actor : Principal) (cmd : FamilyCommand) (now : Time)
      → Follows e (apply_family_command e' actor cmd now).0
