-- ===== src/Application/Devices.antt =====
-- Trusted devices (backend/internal/application/devices.go and login.go). The random secret and
-- identifier are arguments; `Devices` only lists.
use Prim.Native.String.{len}
use family_quest.Base.{
  ℕ, ◌+◌, Bool, true, false, not, ◌&&◌, ◌||◌, List, [], String, ℤ, pos, lt_ℤ, str_eq, trim_space,
  ◌==◌, Result, ok, err, forbidden, unauthorized, invalid_input, invalid_pin, fail_if, ◌>>◌, Option,
  none, some, if◌then◌else◌,
}
use family_quest.Domain.Dates.{Time}
use family_quest.Domain.Principals.{Principal, validate_pin, role_parent, role_child}
use family_quest.People.Tables.{Person, Device, House}
use family_quest.People.Members.{verify_participant_pin}
use family_quest.People.Devices.{
  create_device, authenticate_device, revoke_device, revoke_device_token,
}
use family_quest.Application.Access.{is_err, other_family}
use family_quest.Application.Sessions.{Env, house_service, check_confirmation, authenticate}
use family_quest.Application.Members.{name_length, ninety_days}

abbrev pub remembers : Person → Bool
remembers owner =
    lt_ℤ (pos 0) owner.id && (str_eq owner.role role_parent || str_eq owner.role role_child)

unfoldable pub approved_by : House × Result Person → House × Result (Option Person)
approved_by (w, err x) = (w, err x)
approved_by (w, ok p) =
    if not (str_eq p.role role_parent) then (w, err forbidden) else (w, ok (some p))

-- The parent who approves a child's device.
unfoldable pub find_approver : Env → House → Person → ℤ → String → House × Result (Option Person)
find_approver e w owner parent parent_pin =
    if not (str_eq owner.role role_child)
    then (w, ok none)
    else if is_err (validate_pin parent_pin)
    then (w, err invalid_pin)
    else approved_by (verify_participant_pin e.hashing w parent parent_pin)

abbrev pub new_device : Env → Person → String → String → String → Time → Device
new_device e owner name id secret now = record {
  id = id;
  participant_id = owner.id;
  session_version = owner.session_version;
  token_hash = e.device_hash secret;
  name = trim_space name;
  created_at = now;
  last_seen_at = now;
  expires_at = now + ninety_days;
  revoked_at = none;
}

unfoldable pub remember_approved :
    Env
    → Person
    → String
    → String
    → String
    → String
    → Time
    → House × Result (Option Person)
    → House × Result (Unit {0})
remember_approved e owner name id secret previous now (w, err x) = (w, err x)
remember_approved e owner name id secret previous now (w, ok approver) =
    create_device w (new_device e owner name id secret now) owner approver (e.device_hash previous)
      now

-- `rememberDevice`.
unfoldable pub remember_device :
    Env
    → House
    → Person
    → String
    → ℤ
    → String
    → String
    → String
    → String
    → Time
    → House × Result (Unit {0})
remember_device e w owner name parent parent_pin id secret previous now =
    if not (remembers owner) || name_length name
    then (w, err invalid_input)
    else remember_approved e owner name id secret previous now
        (find_approver e w owner parent parent_pin)

-- `DeviceSession`; a secret that is a hexadecimal text has a byte to each character.
unfoldable pub device_session : Env → House → String → Time → House × Result (Person × Device)
device_session e w secret now =
    if not (len secret == 64)
    then (w, err unauthorized)
    else authenticate_device w (e.device_hash secret) now (now + ninety_days)

-- `ForgetDevice`.
unfoldable pub forget_device : Env → House → String → Time → House
forget_device e w secret now =
    if not (len secret == 64) then w else revoke_device_token w (e.device_hash secret) now

unfoldable pub remove_checked :
    House → String → Time → Result (Unit {0}) → House × Result (Unit {0})
remove_checked w id now (err x) = (w, err x)
remove_checked w id now (ok u) = revoke_device w id now

-- `RemoveDevice`.
unfoldable pub remove_device :
    Env → House → Principal → String → List ℕ → Time → House × Result (Unit {0})
remove_device e w p id proof now = remove_checked w id now (do
  fail_if (other_family (house_service w now) p) forbidden
  check_confirmation e w p proof now)

pub record LoginInput : Type 0 where
  pub participant_id : ℤ
  pub pin : String
  pub remember : Bool
  pub device_name : String
  pub parent_id : ℤ
  pub parent_pin : String
  pub previous_secret : String

pub record LoginResult : Type 0 where
  pub participant : Person
  pub token : List ℕ
  pub remembered : Bool
  pub device_id : String
  pub device_secret : String

unfoldable pub remembered_result :
    Person → String → String → House × Result (Unit {0}) → House × Result LoginResult
remembered_result owner id secret (w, err x) = (w, err x)
remembered_result owner id secret (w, ok u) = (
  w,
  ok (record {
    participant = owner;
    token = [];
    remembered = true;
    device_id = id;
    device_secret = secret;
  }),
)

unfoldable pub login_known :
    Env
    → LoginInput
    → String
    → String
    → Time
    → House × Result (Person × List ℕ)
    → House × Result LoginResult
login_known e input id secret now (w, err x) = (w, err x)
login_known e input id secret now (w, ok (owner, token)) =
    if input.remember
    then remembered_result owner id secret (
        remember_device e w owner input.device_name input.parent_id input.parent_pin id secret
          input.previous_secret now)
    else (
      forget_device e w input.previous_secret now,
      ok (record {
        participant = owner;
        token = token;
        remembered = false;
        device_id = "";
        device_secret = "";
      }),
    )

-- `Login`.
unfoldable pub login :
    Env → House → LoginInput → String → String → Time → House × Result LoginResult
login e w input id secret now =
    login_known e input id secret now (authenticate e w input.participant_id input.pin now)
