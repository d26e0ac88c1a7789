-- ===== src/People/Tables.antt =====
-- The tables of participants and devices (backend/migrations) that store.go and devices.go of
-- backend/internal/store use, and what they use of the package bcrypt.
use family_quest.Base.{Bool, ◌&&◌, List, String, ℤ, Option, str_eq, eq_ℤ}
use family_quest.Domain.Dates.{Time}
use family_quest.Domain.Principals.{role_parent, role_child}
use family_quest.Tasks.Tables.{Assignment}

-- `pin_hash` is empty where the column is null.
pub record Person : Type 0 where
  pub id : ℤ
  pub name : String
  pub role : String
  pub pin_code : Option String
  pub pin_hash : String
  pub active : Bool
  pub session_version : ℤ

pub record Device : Type 0 where
  pub id : String
  pub participant_id : ℤ
  pub session_version : ℤ
  pub token_hash : String
  pub name : String
  pub created_at : Time
  pub last_seen_at : Time
  pub expires_at : Time
  pub revoked_at : Option Time

pub record RewardParticipant : Type 0 where
  pub reward_id : ℤ
  pub participant_id : ℤ
  pub active : Bool

pub record Grant : Type 0 where
  pub id : String
  pub participant_id : ℤ
  pub session_version : ℤ
  pub name : String
  pub read_only : Bool
  pub created_at : Time
  pub expires_at : Time
  pub revoked_at : Option Time

pub record House : Type 0 where
  pub family_id : ℤ
  pub people : List Person
  pub devices : List Device
  pub grants : List Grant
  pub assignments : List Assignment
  pub reward_participants : List RewardParticipant
  pub child_limit : ℤ
  pub access_until : Option Time
  pub owner : Option ℤ

-- `GenerateFromPassword`, which fails on a password of more than 72 bytes, and
-- `CompareHashAndPassword`.
pub record Hashing : Type 0 where
  pub generate : String → Option String
  pub compare_hash : String → String → Bool

abbrev pub has_id : ℤ → Person → Bool
has_id id p = eq_ℤ p.id id

abbrev pub active_with : ℤ → Person → Bool
active_with id p = eq_ℤ p.id id && p.active

abbrev pub is_active_parent : Person → Bool
is_active_parent p = p.active && str_eq p.role role_parent

abbrev pub is_active_child : Person → Bool
is_active_child p = p.active && str_eq p.role role_child
