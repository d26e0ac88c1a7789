-- ===== src/Store/FamilyEntries.antt =====
-- `GetFamilyEntry` and `SaveFamilyEntry` (backend/internal/store/family.go). A row is the entry that
-- `scanFamilyEntry` makes of it.
use family_quest.Base.{
  not, List, [], ◌∷◌, ℤ, pos, eq_ℤ, ◌+ℤ◌, Result, ok, err, conflict, not_found, Option, none, some,
  if◌then◌else◌,
}
use family_quest.Domain.Dates.{Time}
use family_quest.Domain.ActivityRewards.{ActivityReward}
use family_quest.Family.Entry.{FamilyEntry}
use family_quest.Family.Candidates.{family_reward_candidates}
use family_quest.Store.Db.{Db, ParticipantRow, insert_activity_reward}

unfoldable pub find_entry : ℤ → List FamilyEntry → Option FamilyEntry
find_entry id [] = none
find_entry id (e ∷ es) = if eq_ℤ e.id id then some e else find_entry id es

unfoldable pub replace_entry : FamilyEntry → List FamilyEntry → List FamilyEntry
replace_entry e [] = []
replace_entry e (x ∷ xs) = (if eq_ℤ x.id e.id then e else x) ∷ replace_entry e xs

unfoldable pub insert_rewards :
    List ParticipantRow → List ActivityReward → List ActivityReward → List ActivityReward
insert_rewards participants rewards [] = rewards
insert_rewards participants rewards (r ∷ rs) =
    insert_rewards participants (insert_activity_reward participants rewards r) rs

-- A row that is new: its identifier comes from the sequence, its version and times from the
-- table's defaults.
unfoldable pub insert_entry : Db → FamilyEntry → FamilyEntry → Time → Db × Result FamilyEntry
insert_entry db before e now =
    let saved = record e {
      id = db.next_entry_id;
      version = pos 1;
      created_at = now;
      updated_at = now;
    } in
    (
      record db {
        family_entries = saved ∷ db.family_entries;
        next_entry_id = db.next_entry_id +ℤ pos 1;
        activity_rewards =
            insert_rewards db.participants db.activity_rewards
              (family_reward_candidates before saved);
      },
      ok saved,
    )

unfoldable pub update_entry : Db → FamilyEntry → FamilyEntry → Time → Db × Result FamilyEntry
update_entry db before e now =
    let saved = record e {
      version = before.version +ℤ pos 1;
      author_id = before.author_id;
      created_at = before.created_at;
      updated_at = now;
    } in
    (
      record db {
        family_entries = replace_entry saved db.family_entries;
        activity_rewards =
            insert_rewards db.participants db.activity_rewards
              (family_reward_candidates before saved);
      },
      ok saved,
    )

unfoldable pub save_found : Db → FamilyEntry → Time → Option FamilyEntry → Db × Result FamilyEntry
save_found db e now none = (db, err not_found)
save_found db e now (some before) =
    if not (eq_ℤ before.version e.version) then (db, err conflict) else update_entry db before e now

-- `SaveFamilyEntry`. `blank` is Go's zero `FamilyEntry`, which stands for the state before an insert.
unfoldable pub save_family_entry : Db → FamilyEntry → FamilyEntry → Time → Db × Result FamilyEntry
save_family_entry db blank e now =
    if eq_ℤ e.id (pos 0)
    then insert_entry db blank e now
    else save_found db e now (find_entry e.id db.family_entries)

abbrev pub entry_result : Option FamilyEntry → Result FamilyEntry
entry_result none = err not_found
entry_result (some e) = ok e

-- `GetFamilyEntry`.
unfoldable pub get_family_entry : Db → ℤ → Result FamilyEntry
get_family_entry db id = entry_result (find_entry id db.family_entries)
