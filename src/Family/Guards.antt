-- ===== src/Family/Guards.antt =====
-- When `ApplyFamilyCommand` may change a card (backend/internal/domain/family.go).
use Prim.Native.String.{count}
use family_quest.Base.{◌≤◌, ◌<◌, ◌≡◌, true, false, str_eq, eq_ℤ, str_lt, mem_ℤ, length, none, arith}
use family_quest.Domain.Dates.{Time, valid_family_date, family_date}
use family_quest.Domain.Principals.{Principal, is_family_member}
use family_quest.Family.Entry.{FamilyEntry, FamilyCommand}
use family_quest.Family.Command.{progress_refusal}

-- What stands behind a mark in the history.
pub record IsAllowed (e : FamilyEntry) (actor : Principal) (cmd : FamilyCommand) (now : Time)
    : Type 0 where
  pub member : is_family_member actor ≡ true
  pub fresh : eq_ℤ cmd.version e.version ≡ true
  pub not_archived : e.archived ≡ false
  pub agreed : str_eq e.kind "proposal" ≡ true → e.approved ≡ true
  pub real_date : valid_family_date cmd.date ≡ true
  pub not_future : str_lt (family_date now) cmd.date ≡ false
  pub short_note : count cmd.note ≤ 2000
  pub room : length e.events < 10000
  pub takes_part :
      str_eq cmd.action "reflection" ≡ false
      → str_eq cmd.action "repeat" ≡ false
      → 0 < length e.participant_ids
      → mem_ℤ actor.participant_id e.participant_ids ≡ true

-- When a fresh command of a member passes the guards, the card is not archived, a proposal is
-- approved, the date is real and not in the future, the note is short, there is room in the
-- history, and the actor takes part where participation is asked.
pub progress_refusal-IsAllowed :
    (e : FamilyEntry) (actor : Principal) (cmd : FamilyCommand) (now : Time)
    → is_family_member actor ≡ true
    → eq_ℤ cmd.version e.version ≡ true
    → progress_refusal e actor cmd now ≡ none
    → IsAllowed e actor cmd now
unfolding progress_refusal
progress_refusal-IsAllowed e actor cmd now m v h = ground arith
