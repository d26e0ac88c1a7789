-- ===== src/Family/Valid.antt =====
-- `ApplyFamilyCommand` and `FamilyEntry.Validate` (backend/internal/domain/family.go).
use family_quest.Base.{
  ℕ, ◌≤◌, ◌≡◌, ◌≢◌, refl, Bool, true, false, List, [], ◌∷◌, ◌++◌, ℤ, pos, ◌≤ℤ◌, ◌+ℤ◌, wrap64, le_ℤ,
  lt_ℤ, one_of, str_eq, str_eq_excludes, count-trim_space, all, all-append_end, length,
  length-append, Option, Error, ok, arith,
}
use family_quest.Domain.Dates.{Time}
use family_quest.Domain.Principals.{Principal, is_family_member}
use family_quest.Family.Entry.{FamilyEntry, FamilyEvent, FamilyCommand}
use family_quest.Family.Validate.{
  validate, validate_sport, valid_texts, valid_sizes, valid_plan, valid_step, valid_history,
  valid_attachments, valid_event,
}
use family_quest.Family.Command.{
  record_it, progress_verdict, step_verdict, stage_verdict, last_stage, is_stage, new_event,
  apply_family_command,
}
use family_quest.Family.Guards.{IsAllowed}
use family_quest.Family.Outcomes.{
  Outcome, refused, repeated, recorded, shelved, agreed, apply_family_command-Outcome,
}

-- In a valid history no stage is above the fourth.
valid_stage :
    (n : ℕ) (actor : ℤ) (v : FamilyEvent)
    → valid_event n v ≡ true
    → is_stage actor v ≡ true
    → (pos 1 ≤ℤ v.step) × (v.step ≤ℤ pos 4)
unfolding valid_event
valid_stage n actor v h s = ground arith

pub last_stage_bounds :
    (n : ℕ) (actor stage : ℤ) (vs : List FamilyEvent)
    → all (valid_event n) vs ≡ true
    → pos 0 ≤ℤ stage
    → stage ≤ℤ pos 4
    → (pos 0 ≤ℤ last_stage actor stage vs) × (last_stage actor stage vs ≤ℤ pos 4)
unfolding last_stage
last_stage_bounds n actor stage [] h lo hi = (lo, hi)
last_stage_bounds n actor stage (v ∷ vs) h lo hi = ground (
  arith,
  valid_stage n actor v,
  last_stage_bounds n actor v.step vs,
  last_stage_bounds n actor stage vs,
)

module _ (e : FamilyEntry) (actor : Principal) (cmd : FamilyCommand) (now : Time) where
  recorded_step :
      progress_verdict e actor cmd ≡ record_it
      → str_eq cmd.action "step" ≡ true
      → (lt_ℤ cmd.step (pos 0) ≡ false) × (le_ℤ (pos (length e.steps)) cmd.step ≡ false)
  unfolding progress_verdict step_verdict
  recorded_step h s = ground (arith, str_eq_excludes cmd.action "step" "checkin" refl)

  recorded_stage :
      all (valid_event (length e.steps)) e.events ≡ true
      → progress_verdict e actor cmd ≡ record_it
      → str_eq cmd.action "stage" ≡ true
      → (lt_ℤ cmd.step (pos 1) ≡ false) × (lt_ℤ (pos 4) cmd.step ≡ false)
  unfolding progress_verdict stage_verdict ◌+ℤ◌ wrap64
  recorded_stage v h s = ground (
    arith,
    str_eq_excludes cmd.action "stage" "checkin" refl,
    str_eq_excludes cmd.action "stage" "step" refl,
    last_stage_bounds (length e.steps) actor.participant_id (pos 0) e.events v,
  )

  recorded_kind :
      progress_verdict e actor cmd ≡ record_it
      → one_of cmd.action ("checkin" ∷ "step" ∷ "stage" ∷ "reflection" ∷ "repeat" ∷ []) ≡ true
  unfolding progress_verdict
  recorded_kind h = ground arith

  member_positive : is_family_member actor ≡ true → le_ℤ actor.participant_id (pos 0) ≡ false
  unfolding is_family_member
  member_positive h = ground arith

  -- The event that is appended passes the check of the history.
  new_event_valid :
      now ≢ 0
      → all (valid_event (length e.steps)) e.events ≡ true
      → IsAllowed e actor cmd now
      → progress_verdict e actor cmd ≡ record_it
      → valid_event (length e.steps) (new_event actor cmd now) ≡ true
  unfolding valid_event new_event
  new_event_valid t v a h = ground (
    arith,
    member_positive a.member,
    recorded_kind h,
    recorded_step h,
    recorded_stage v h,
    count-trim_space cmd.note,
  )

-- The checks one by one.
record IsChecked (e : FamilyEntry) : Type 0 where
  sport : validate_sport e ≡ ok tt
  texts : valid_texts e ≡ ok tt
  sizes : valid_sizes e ≡ ok tt
  plan : valid_plan e ≡ ok tt
  attachments : valid_attachments e ≡ ok tt
  history : valid_history e ≡ ok tt

validate-IsChecked : (e : FamilyEntry) → validate e ≡ ok tt → IsChecked e
unfolding validate
validate-IsChecked e h = ground arith

IsChecked-validate : (e : FamilyEntry) → IsChecked e → validate e ≡ ok tt
unfolding validate
IsChecked-validate e c = ground arith

history_events :
    (e : FamilyEntry) → IsChecked e → all (valid_event (length e.steps)) e.events ≡ true
unfolding valid_history
history_events e c = ground (arith, c.history)

sizes_update :
    (e : FamilyEntry) (archived approved : Bool) (events : List FamilyEvent)
    → IsChecked e
    → length events ≤ 10000
    → valid_sizes (record e { archived = archived; approved = approved; events = events }) ≡ ok tt
unfolding valid_sizes
sizes_update e archived approved events c room = ground (arith, c.sizes)

history_length : (e : FamilyEntry) → IsChecked e → length e.events ≤ 10000
unfolding valid_sizes
history_length e c = ground (arith, c.sizes)

-- Only two of the checks look at the history, and none at the marks `archived` and `approved`.
IsChecked-update :
    (e : FamilyEntry) (archived approved : Bool) (events : List FamilyEvent)
    → IsChecked e
    → length events ≤ 10000
    → all (valid_event (length e.steps)) events ≡ true
    → IsChecked (record e { archived = archived; approved = approved; events = events })
unfolding validate_sport valid_texts valid_sizes valid_plan valid_step valid_attachments
    valid_history
IsChecked-update e archived approved events c room h = record {
  sport = c.sport;
  texts = c.texts;
  sizes = sizes_update e archived approved events c room;
  plan = c.plan;
  attachments = c.attachments;
  history = rw h;
}

module _ (e : FamilyEntry) (actor : Principal) (cmd : FamilyCommand) (now : Time)
    (running : now ≢ 0) (c : IsChecked e) where
  Outcome-IsChecked : {r : FamilyEntry × Option Error} → Outcome e actor cmd now r → IsChecked r.0
  Outcome-IsChecked (refused x) = c
  Outcome-IsChecked (repeated a h) = c
  Outcome-IsChecked (recorded a h) =
      let valid = history_events e c in
      let event = new_event actor cmd now in
      IsChecked-update e e.archived e.approved (e.events ++ event ∷ []) c
        (omega (arith, length-append e.events (event ∷ []), a.room))
        (rw (
          all-append_end (valid_event (length e.steps)) e.events event,
          valid,
          new_event_valid e actor cmd now running valid a h,
        ))
  Outcome-IsChecked (shelved m x a) =
      IsChecked-update e (str_eq cmd.action "archive") e.approved e.events c (history_length e c)
        (history_events e c)
  Outcome-IsChecked (agreed p a k l) =
      IsChecked-update e e.archived true e.events c (history_length e c) (history_events e c)

-- On a card that `Validate` accepts, a command leaves a card that `Validate` accepts, whatever the
-- actor and the command are, at any time but Go's zero time.
pub apply_family_command-validate :
    (e : FamilyEntry) (actor : Principal) (cmd : FamilyCommand) (now : Time)
    → now ≢ 0
    → validate e ≡ ok tt
    → validate (apply_family_command e actor cmd now).0 ≡ ok tt
apply_family_command-validate e actor cmd now t h =
    IsChecked-validate (apply_family_command e actor cmd now).0 (
      Outcome-IsChecked e actor cmd now t (validate-IsChecked e h)
        (apply_family_command-Outcome e actor cmd now))
