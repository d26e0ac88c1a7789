-- ===== src/Family/Retry.antt =====
-- Retries of `ApplyFamilyCommand` (backend/internal/domain/family.go).
use family_quest.Base.{
  ◌≡◌, refl, ◌⊎◌, inl, inr, true, false, [], ◌∷◌, ◌++◌, str_eq, str_eq_excludes, eq_refl,
  any-append_end, Error, Option, none, arith,
}
use family_quest.Domain.Dates.{Time}
use family_quest.Domain.Principals.{Principal}
use family_quest.Family.Entry.{FamilyEntry, FamilyCommand}
use family_quest.Family.Command.{
  record_it, already, progress_verdict, checkin_verdict, step_verdict, new_event, is_archiving,
  same_checkin, is_step, is_repeat, apply_family_command,
}
use family_quest.Family.Outcomes.{
  Outcome, refused, repeated, recorded, shelved, agreed, apply_family_command-Outcome,
}

-- The actions of which a card keeps one mark.
abbrev pub IsOnce : FamilyCommand → Type 0
IsOnce cmd =
    (str_eq cmd.action "checkin" ≡ true)
    ⊎ (str_eq cmd.action "step" ≡ true)
    ⊎ (str_eq cmd.action "repeat" ≡ true)

not_archiving : (cmd : FamilyCommand) → IsOnce cmd → is_archiving cmd ≡ false
not_archiving cmd (inl h) = ground (
  arith,
  str_eq_excludes cmd.action "checkin" "archive" refl,
  str_eq_excludes cmd.action "checkin" "restore" refl,
)
not_archiving cmd (inr (inl h)) = ground (
  arith,
  str_eq_excludes cmd.action "step" "archive" refl,
  str_eq_excludes cmd.action "step" "restore" refl,
)
not_archiving cmd (inr (inr h)) = ground (
  arith,
  str_eq_excludes cmd.action "repeat" "archive" refl,
  str_eq_excludes cmd.action "repeat" "restore" refl,
)

not_approving : (cmd : FamilyCommand) → IsOnce cmd → str_eq cmd.action "approve" ≡ false
not_approving cmd (inl h) = str_eq_excludes cmd.action "checkin" "approve" refl h
not_approving cmd (inr (inl h)) = str_eq_excludes cmd.action "step" "approve" refl h
not_approving cmd (inr (inr h)) = str_eq_excludes cmd.action "repeat" "approve" refl h

module _ (e : FamilyEntry) (actor : Principal) (cmd : FamilyCommand) (now : Time) where
  -- Once the mark is appended, the same command finds it.
  verdict_again :
      IsOnce cmd
      → progress_verdict e actor cmd ≡ record_it
      → progress_verdict (record e { events = e.events ++ new_event actor cmd now ∷ [] }) actor cmd
        ≡ already
  unfolding progress_verdict checkin_verdict step_verdict new_event
  verdict_again (inl c) h = ground (
    arith,
    eq_refl cmd.action,
    eq_refl cmd.date,
    any-append_end (same_checkin cmd actor.participant_id) e.events (new_event actor cmd now),
  )
  verdict_again (inr (inl s)) h = ground (
    arith,
    str_eq_excludes cmd.action "step" "checkin" refl,
    any-append_end (is_step cmd.step) e.events (new_event actor cmd now),
  )
  verdict_again (inr (inr r)) h = ground (
    arith,
    str_eq_excludes cmd.action "repeat" "checkin" refl,
    str_eq_excludes cmd.action "repeat" "step" refl,
    str_eq_excludes cmd.action "repeat" "stage" refl,
    str_eq_excludes cmd.action "repeat" "reflection" refl,
    any-append_end (is_repeat actor.participant_id) e.events (new_event actor cmd now),
  )

  marked_after :
      {r : FamilyEntry × Option Error}
      → Outcome e actor cmd now r
      → IsOnce cmd
      → r.1 ≡ none
      → progress_verdict r.0 actor cmd ≡ already
  marked_after (refused x) once h = cc
  marked_after (repeated a v) once h = v
  marked_after (recorded a v) once h = verdict_again once v
  marked_after (shelved m c a) once h = cc (not_archiving cmd once)
  marked_after (agreed p a k l) once h = cc (not_approving cmd once)

marked_unchanged :
    {e : FamilyEntry} {actor : Principal} {cmd : FamilyCommand} {now : Time}
    {r : FamilyEntry × Option Error}
    → Outcome e actor cmd now r
    → IsOnce cmd
    → progress_verdict e actor cmd ≡ already
    → r.0 ≡ e
marked_unchanged (refused x) once h = refl
marked_unchanged (repeated a v) once h = refl
marked_unchanged (recorded a v) once h = cc
marked_unchanged {cmd} (shelved m c a) once h = cc (not_archiving cmd once)
marked_unchanged {cmd} (agreed p a k l) once h = cc (not_approving cmd once)

-- A check-in, a step or a repeat that has been accepted once changes nothing when the same command
-- comes again, at whatever time.
pub apply_family_command_retry :
    (e : FamilyEntry) (actor : Principal) (cmd : FamilyCommand) (now later : Time)
    → IsOnce cmd
    → (apply_family_command e actor cmd now).1 ≡ none
    → let e' = (apply_family_command e actor cmd now).0 in
      (apply_family_command e' actor cmd later).0 ≡ e'
apply_family_command_retry e actor cmd now later once h =
    marked_unchanged
      (apply_family_command-Outcome (apply_family_command e actor cmd now).0 actor cmd later) once
      (marked_after e actor cmd now (apply_family_command-Outcome e actor cmd now) once h)
