-- ===== src/Store/Reading.antt =====
-- `CompleteReading` and `StartReading` (backend/internal/store/reading.go).
use family_quest.Base.{
  ℕ, suc, no_rows, ◌+◌, Bool, not, ◌&&◌, ◌||◌, List, [], ◌∷◌, ◌++◌, String, ℤ, pos, lt_ℤ, eq_ℤ,
  str_eq, any, Result, ok, err, conflict, forbidden, Option, none, some, ltb, leb, if◌then◌else◌,
}
use family_quest.Domain.Dates.{Time, family_date}
use family_quest.Domain.Profile.{policy, allows_reading}
use family_quest.Domain.ActivityRewards.{ActivityReward}
use family_quest.Domain.Reading.{
  ReadingCompletion, reading_reward, reading_title, validate_completion,
}
use family_quest.Store.Db.{
  Db, ParticipantRow, ReadingStart, active_child, insert_activity_reward, earned_stars,
}

abbrev pub is_completion : String → ℤ → ActivityReward → Bool
is_completion id owner r =
    str_eq r.source "reading" && str_eq r.source_key id && eq_ℤ r.participant_id owner

unfoldable pub saved_reading : String → ℤ → List ActivityReward → Option ActivityReward
saved_reading id owner [] = none
saved_reading id owner (r ∷ rs) =
    if is_completion id owner r then some r else saved_reading id owner rs

abbrev pub is_start : String → ℤ → ReadingStart → Bool
is_start id owner s = str_eq s.id id && eq_ℤ s.participant_id owner

abbrev pub is_start_at : ReadingCompletion → ℤ → ReadingStart → Bool
is_start_at c owner s = is_start c.id owner s && str_eq s.level c.level

unfoldable pub delete_starts : (ReadingStart → Bool) → List ReadingStart → List ReadingStart
delete_starts test [] = []
delete_starts test (s ∷ ss) = let rest = delete_starts test ss in if test s then rest else s ∷ rest

-- A completion that has no reward yet.
unfoldable pub award_reading : Db → ℤ → ReadingCompletion → Time → Db × Result ActivityReward
award_reading db owner c now =
    let earned = earned_stars "reading" owner (family_date now) db.activity_rewards in
    let reward = reading_reward c owner earned now in
    if lt_ℤ (pos 0) db.family_id && not (any (is_start_at c owner) db.reading_starts)
    then (db, err forbidden)
    else (
      record db {
        activity_rewards = insert_activity_reward db.participants db.activity_rewards reward;
        reading_starts = delete_starts (is_start c.id owner) db.reading_starts;
      },
      ok reward,
    )

unfoldable pub complete_saved :
    Db → ℤ → ReadingCompletion → Time → Option ActivityReward → Db × Result ActivityReward
complete_saved db owner c now none = award_reading db owner c now
complete_saved db owner c now (some saved) =
    (db, if not (str_eq saved.title (reading_title c)) then err conflict else ok saved)

unfoldable pub complete_for :
    Db → ℤ → ReadingCompletion → Time → Option ParticipantRow → Db × Result ActivityReward
complete_for db owner c now none = (db, err forbidden)
complete_for db owner c now (some p) =
    complete_saved db owner c now (saved_reading c.id owner db.activity_rewards)

unfoldable pub complete_valid :
    Result (Unit {0}) → Db → ℤ → ReadingCompletion → Time → Db × Result ActivityReward
complete_valid (err e) db owner c now = (db, err e)
complete_valid (ok u) db owner c now =
    complete_for db owner c now (active_child owner db.participants)

-- `CompleteReading`.
unfoldable pub complete_reading : Db → ℤ → ReadingCompletion → Time → Db × Result ActivityReward
complete_reading db owner c now = complete_valid (validate_completion c) db owner c now

abbrev pub owns_start : ℤ → ReadingStart → Bool
owns_start owner s = eq_ℤ s.participant_id owner

abbrev pub starts_of : ℤ → List ReadingStart → ℕ
starts_of owner [] = 0
starts_of owner (s ∷ ss) =
    let rest = starts_of owner ss in if owns_start owner s then suc rest else rest

unfoldable pub find_start : String → List ReadingStart → Option ReadingStart
find_start id [] = none
find_start id (s ∷ ss) = if str_eq s.id id then some s else find_start id ss

abbrev pub day_ns : ℕ
day_ns = 86_400_000_000_000

-- An old start of this child: older than a day.
abbrev pub is_stale : ℤ → Time → ReadingStart → Bool
is_stale owner now s = owns_start owner s && ltb (s.created_at + day_ns) now

unfoldable pub insert_start : Db → ℤ → ReadingCompletion → ℤ → Time → Db × Result (Unit {0})
insert_start db owner c version now =
    let kept = delete_starts (is_stale owner now) db.reading_starts in
    let start : ReadingStart = record {
      id = c.id;
      participant_id = owner;
      level = c.level;
      policy_version = version;
      created_at = now;
    } in
    if leb 20 (starts_of owner kept)
    then (db, err conflict)
    else (record db { reading_starts = kept ++ start ∷ [] }, ok tt)

unfoldable pub start_new :
    Db
    → ℤ
    → ReadingCompletion
    → Time
    → ParticipantRow
    → Option ReadingStart
    → Db × Result (Unit {0})
start_new db owner c now p (some prior) = (
  db,
  if not (eq_ℤ prior.participant_id owner) || not (str_eq prior.level c.level)
      then err conflict
      else ok tt,
)
start_new db owner c now p none =
    let granted = policy p.profile now in
    if lt_ℤ (pos 0) db.family_id && not (allows_reading granted c.level)
    then (db, err forbidden)
    else insert_start db owner c granted.version now

unfoldable pub start_for :
    Db → ℤ → ReadingCompletion → Time → Option ParticipantRow → Db × Result (Unit {0})
start_for db owner c now none = (db, err no_rows)
start_for db owner c now (some p) = start_new db owner c now p (find_start c.id db.reading_starts)

unfoldable pub start_valid :
    Result (Unit {0}) → Db → ℤ → ReadingCompletion → Time → Db × Result (Unit {0})
start_valid (err e) db owner c now = (db, err e)
start_valid (ok u) db owner c now = start_for db owner c now (active_child owner db.participants)

-- `StartReading`. An error rolls back, also the deletion of the old starts.
unfoldable pub start_reading : Db → ℤ → ReadingCompletion → Time → Db × Result (Unit {0})
start_reading db owner c now = start_valid (validate_completion c) db owner c now
