-- ===== src/Store/Db.antt =====
-- The tables (backend/migrations) and `insertActivityReward` (backend/internal/store/learning.go).
-- A row that holds a document holds the value that was written: encoding/json is not modelled. A
-- statement that fails rolls its transaction back and is left out, as are the CHECK constraints.
use family_quest.Base.{
  Bool, not, ◌&&◌, ◌||◌, List, [], ◌∷◌, ◌++◌, String, ℤ, pos, eq_ℤ, ◌+ℤ◌, str_eq, any, Option, none,
  some, if◌then◌else◌,
}
use family_quest.Domain.Dates.{Time}
use family_quest.Domain.Principals.{role_parent, role_child}
use family_quest.Domain.Profile.{LearningProfile}
use family_quest.Domain.ActivityRewards.{ActivityReward}
use family_quest.Family.Entry.{FamilyEntry}
use family_quest.Math.Session.{MathSession}

pub record ParticipantRow : Type 0 where
  pub id : ℤ
  pub role : String
  pub active : Bool
  pub profile : LearningProfile

pub record MathRow : Type 0 where
  pub id : String
  pub participant_id : ℤ
  pub session : MathSession

pub record ReadingStart : Type 0 where
  pub id : String
  pub participant_id : ℤ
  pub level : String
  pub policy_version : ℤ
  pub created_at : Time

pub record Db : Type 0 where
  pub family_id : ℤ
  pub participants : List ParticipantRow
  pub math_sessions : List MathRow
  pub activity_rewards : List ActivityReward
  pub reading_starts : List ReadingStart
  pub family_entries : List FamilyEntry
  pub next_entry_id : ℤ

-- `select id from participants where id=$1 and active and role='child' for update`.
unfoldable pub active_child : ℤ → List ParticipantRow → Option ParticipantRow
active_child owner [] = none
active_child owner (p ∷ ps) =
    if eq_ℤ p.id owner && p.active && str_eq p.role role_child
    then some p
    else active_child owner ps

abbrev pub may_earn : ℤ → ParticipantRow → Bool
may_earn owner p =
    eq_ℤ p.id owner && p.active && (str_eq p.role role_parent || str_eq p.role role_child)

-- The primary key of `activity_rewards`.
abbrev pub same_key : ActivityReward → ActivityReward → Bool
same_key r q =
    str_eq q.source r.source
    && str_eq q.source_key r.source_key
    && eq_ℤ q.participant_id r.participant_id

-- `insertActivityReward`: for an active parent or child, and `on conflict do nothing`.
unfoldable pub insert_activity_reward :
    List ParticipantRow → List ActivityReward → ActivityReward → List ActivityReward
insert_activity_reward participants rewards r =
    if any (may_earn r.participant_id) participants && not (any (same_key r) rewards)
    then rewards ++ r ∷ []
    else rewards

abbrev pub earns_on : String → ℤ → String → ActivityReward → Bool
earns_on source owner date r =
    eq_ℤ r.participant_id owner && str_eq r.source source && str_eq r.date date

-- `select coalesce(sum(stars),0)::int from activity_rewards where participant_id=… and source=… and
-- earned_date=…`.
unfoldable pub earned_stars : String → ℤ → String → List ActivityReward → ℤ
earned_stars source owner date [] = pos 0
earned_stars source owner date (r ∷ rs) =
    let rest = earned_stars source owner date rs in
    if earns_on source owner date r then r.stars +ℤ rest else rest
