-- ===== src/Domain/Principals.antt =====
-- Principals and roles (backend/internal/domain/domain.go, and `IsFamilyMember` of family.go).
use Prim.Native.String.{len}
use family_quest.Base.{
  ℕ, Bool, not, ◌&&◌, ◌||◌, String, ℤ, pos, lt_ℤ, eq_ℤ, str_eq, codes, ◌==◌, all, leb, Result, ok,
  err, invalid_pin_format, invalid_role, if◌then◌else◌,
}

abbrev pub role_parent : String
role_parent = "parent"

abbrev pub role_child : String
role_child = "child"

abbrev pub role_school : String
role_school = "school"

pub record Principal : Type 0 where
  pub mcp_grant_id : String
  pub mcp_read_only : Bool
  pub family_id : ℤ
  pub device_id : String
  pub confirmed_until : ℤ
  pub session_version : ℤ
  pub participant_id : ℤ
  pub role : String

unfoldable pub is_parent : Principal → Bool
is_parent p = lt_ℤ (pos 0) p.participant_id && str_eq p.role role_parent

unfoldable pub is_family_member : Principal → Bool
is_family_member p =
    lt_ℤ (pos 0) p.participant_id && (str_eq p.role role_parent || str_eq p.role role_child)

abbrev pub pin_digit : ℕ → Bool
pin_digit r = leb b'0' r && leb r b'9'

-- `len` counts bytes; a text of which every character is a digit has one byte to each.
unfoldable pub validate_pin : String → Result (Unit {0})
validate_pin pin =
    if not (len pin == 6)
    then err invalid_pin_format
    else if all pin_digit (codes pin)
    then ok tt
    else err invalid_pin_format

unfoldable pub validate_role : String → Result (Unit {0})
validate_role role =
    if not (str_eq role role_parent)
      && not (str_eq role role_child)
      && not (str_eq role role_school)
    then err invalid_role
    else ok tt

unfoldable pub can_complete : Principal → ℤ → Bool
can_complete p owner_id = lt_ℤ (pos 0) p.participant_id && eq_ℤ p.participant_id owner_id
