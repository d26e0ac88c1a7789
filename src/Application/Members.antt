-- ===== src/Application/Members.antt =====
-- Participants (`CreateParticipant`, `DeleteParticipant` and `UpdateParticipantPIN` of
-- backend/internal/application/service.go) and delegations to agents (mcp.go).
use family_quest.Base.{
  ℕ, ◌+◌, Bool, not, ◌&&◌, ◌||◌, List, String, ℤ, pos, lt_ℤ, str_eq, trim_space, codes, length, ltb,
  Result, ok, err, forbidden, invalid_role, invalid_input, fail_if, ◌>>◌, ◌>>=◌, none,
  if◌then◌else◌,
}
use family_quest.Domain.Dates.{Time}
use family_quest.Domain.Principals.{Principal, is_parent, validate_pin, validate_role, role_school}
use family_quest.Auth.Token.{issue_mcp}
use family_quest.People.Tables.{Person, House, Grant}
use family_quest.People.Members.{
  create_participant, delete_participant, update_participant_pin, role_or_child,
}
use family_quest.People.Grants.{create_mcp_grant, revoke_mcp_grant}
use family_quest.Application.Access.{interactive_mutation, writable, other_family}
use family_quest.Application.Sessions.{
  Env, house_service, holder_of, get_person, check_confirmation,
}

-- The three checks in front of what only a parent may change.
unfoldable pub parent_writable : House → Principal → Time → Result (Unit {0})
parent_writable w actor now = do
  writable (house_service w now) actor interactive_mutation
  fail_if (other_family (house_service w now) actor || not (is_parent actor)) forbidden

unfoldable pub check_participant :
    House → Principal → String → String → String → Time → Result (Unit {0})
check_participant w actor name role pin now = do
  parent_writable w actor now
  validate_pin pin
  validate_role (role_or_child role)
  fail_if (lt_ℤ (pos 0) w.family_id && str_eq (role_or_child role) role_school) invalid_role
  fail_if (str_eq (trim_space name) "") invalid_input

unfoldable pub create_checked :
    Env → House → ℤ → String → String → String → Time → Result (Unit {0}) → House × Result ℤ
create_checked e w id name role pin now (err x) = (w, err x)
create_checked e w id name role pin now (ok u) =
    create_participant e.hashing w id (trim_space name) (role_or_child role) pin now

-- `Service.CreateParticipant`.
unfoldable pub create_participant_as :
    Env → House → Principal → ℤ → String → String → String → Time → House × Result ℤ
create_participant_as e w actor id name role pin now =
    create_checked e w id name role pin now (check_participant w actor name role pin now)

unfoldable pub delete_checked : House → ℤ → Result (Unit {0}) → House × Result (Unit {0})
delete_checked w id (err x) = (w, err x)
delete_checked w id (ok u) = delete_participant w id

-- `Service.DeleteParticipant`.
unfoldable pub delete_participant_as : House → Principal → ℤ → Time → House × Result (Unit {0})
delete_participant_as w actor id now = delete_checked w id (parent_writable w actor now)

unfoldable pub check_new_pin : Env → House → Principal → String → List ℕ → Time → Result (Unit {0})
check_new_pin e w actor pin proof now = do
  fail_if (other_family (house_service w now) actor) forbidden
  check_confirmation e w actor proof now
  fail_if (not (is_parent actor)) forbidden
  validate_pin pin

unfoldable pub update_checked :
    Env → House → ℤ → String → Result (Unit {0}) → House × Result (Unit {0})
update_checked e w id pin (err x) = (w, err x)
update_checked e w id pin (ok u) = update_participant_pin e.hashing w id pin

-- `Service.UpdateParticipantPIN`.
unfoldable pub update_participant_pin_as :
    Env → House → Principal → ℤ → String → List ℕ → Time → House × Result (Unit {0})
update_participant_pin_as e w actor id pin proof now =
    update_checked e w id pin (check_new_pin e w actor pin proof now)

abbrev pub name_length : String → Bool
name_length name = let n = length (codes (trim_space name)) in ltb n 1 || ltb 80 n

abbrev pub ninety_days : ℕ
ninety_days = 7_776_000_000_000_000

abbrev pub new_grant : Person → String → String → Bool → Time → Grant
new_grant owner id name read_only now = record {
  id = id;
  participant_id = owner.id;
  session_version = owner.session_version;
  name = trim_space name;
  read_only = read_only || str_eq owner.role role_school;
  created_at = now;
  expires_at = now + ninety_days;
  revoked_at = none;
}

unfoldable pub check_grant : Env → House → Principal → ℤ → String → List ℕ → Time → Result Person
check_grant e w p target name proof now = do
  fail_if (not (str_eq p.mcp_grant_id "")) forbidden
  check_confirmation e w p proof now
  writable (house_service w now) p interactive_mutation
  fail_if (name_length name) invalid_input
  owner ← get_person w target
  fail_if (not owner.active) forbidden
  ok owner

unfoldable pub issue_stored :
    Env → Person → String → Time → House × Result (Unit {0}) → House × Result (List ℕ)
issue_stored e owner id expires (w, err x) = (w, err x)
issue_stored e owner id expires (w, ok u) =
    (w, ok (issue_mcp e.encoding e.tokens (holder_of owner) id expires))

unfoldable pub create_grant_checked :
    Env → House → String → String → Bool → Time → Result Person → House × Result (List ℕ)
create_grant_checked e w id name read_only now (err x) = (w, err x)
create_grant_checked e w id name read_only now (ok owner) =
    issue_stored e owner id (now + ninety_days)
      (create_mcp_grant w (new_grant owner id name read_only now))

-- `Service.CreateMCPGrant`; the random identifier is an argument.
unfoldable pub create_mcp_grant_as :
    Env → House → Principal → ℤ → String → String → Bool → List ℕ → Time → House × Result (List ℕ)
create_mcp_grant_as e w p target id name read_only proof now =
    create_grant_checked e w id name read_only now (check_grant e w p target name proof now)

abbrev pub may_not_manage : House → Principal → Time → Bool
may_not_manage w p now =
    not (is_parent p) || not (str_eq p.mcp_grant_id "") || other_family (house_service w now) p

-- `Service.RemoveMCPGrant`.
unfoldable pub remove_mcp_grant : House → Principal → String → Time → House × Result (Unit {0})
remove_mcp_grant w p id now =
    if may_not_manage w p now then (w, err forbidden) else revoke_mcp_grant w id now
