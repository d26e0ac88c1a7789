-- ===== src/Family/Entry.antt =====
-- The aggregate of a family activity (the types of backend/internal/domain/family.go and sport.go)
-- and who may edit it.
use family_quest.Base.{
  ℕ, ◌*◌, ◌^◌, Bool, false, ◌&&◌, ◌||◌, List, [], ◌∷◌, String, ℤ, pos, eq_ℤ, le_ℤ, str_eq, Option,
  if◌then◌else◌,
}
use family_quest.Domain.Dates.{Time}
use family_quest.Domain.Principals.{Principal, is_parent, is_family_member}

-- A float64: a finite one is a whole multiple of 2 ^ -1074, and that multiple stands here.
pub data Float : Type 0 where
  nan : Float
  infinite : (negative : Bool) → Float
  finite : ℤ → Float

-- `validNumber(v, max)`: a number from 0 up to a whole maximum.
unfoldable pub valid_number : Float → ℕ → Bool
valid_number nan most = false
valid_number (infinite negative) most = false
valid_number (finite v) most = le_ℤ (pos 0) v && le_ℤ v (pos (most * 2 ^ 1074))

unfoldable pub is_zero_number : Float → Bool
is_zero_number (finite v) = eq_ℤ v (pos 0)
is_zero_number _ = false

pub record SportExercise : Type 0 where
  pub name : String
  pub sets : ℤ
  pub reps : ℤ
  pub weight_kg : Float

pub record SportSession : Type 0 where
  pub activity : String
  pub minutes : Float
  pub distance_km : Float
  pub exercises : List SportExercise

pub record FamilyStep : Type 0 where
  pub title : String
  pub participant_id : ℤ

pub record FamilyEvent : Type 0 where
  pub actor_id : ℤ
  pub kind : String
  pub date : String
  pub step : ℤ
  pub note : String
  pub easy : Bool
  pub created_at : Time

pub record FamilyDraft : Type 0 where
  pub sport : Option SportSession
  pub title : String
  pub description : String
  pub date : String
  pub participant_ids : List ℤ
  pub steps : List FamilyStep
  pub weekdays : List ℤ
  pub reminder : String
  pub easy_version : String
  pub value : String
  pub agreement : String
  pub next_activity : String
  pub photo : String
  pub audio : String

pub record FamilyEntry : Type 0 where
  pub id : ℤ
  pub version : ℤ
  pub kind : String
  pub author_id : ℤ
  pub created_at : Time
  pub updated_at : Time
  pub archived : Bool
  pub approved : Bool
  pub draft : FamilyDraft
  pub open draft use {
    sport, title, description, date, participant_ids, steps, weekdays, reminder, easy_version,
    value, agreement, next_activity, photo, audio,
  }
  pub events : List FamilyEvent

pub record FamilyCommand : Type 0 where
  pub version : ℤ
  pub action : String
  pub date : String
  pub step : ℤ
  pub note : String
  pub easy : Bool

-- The list holds this one participant and no other.
abbrev pub sole_participant : List ℤ → ℤ → Bool
sole_participant (id ∷ []) p = eq_ℤ id p
sole_participant _ p = false

unfoldable pub can_edit : FamilyEntry → Principal → Bool
can_edit e p =
    if str_eq e.kind "sport"
    then is_family_member p && (is_parent p || sole_participant e.participant_ids p.participant_id)
    else is_family_member p && (is_parent p || eq_ℤ e.author_id p.participant_id)
