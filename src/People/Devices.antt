-- ===== src/People/Devices.antt =====
-- Trusted devices (backend/internal/store/devices.go). `ListDevices` only reads.
use family_quest.Base.{
  Bool, true, false, not, ◌&&◌, ◌||◌, List, [], ◌∷◌, ◌++◌, map, String, ℤ, eq_ℤ, str_eq, any, ltb,
  Result, ok, err, not_found, unauthorized, Option, none, some, if◌then◌else◌,
}
use family_quest.Domain.Dates.{Time}
use family_quest.Domain.Principals.{role_parent, role_child}
use family_quest.People.Tables.{Person, Device, House}

-- The participant as the session knew it.
abbrev pub unchanged : Person → Person → Bool
unchanged known p =
    p.active
    && eq_ℤ p.id known.id
    && str_eq p.role known.role
    && eq_ℤ p.session_version known.session_version

abbrev pub approves : Person → Person → Bool
approves known p =
    p.active
    && eq_ℤ p.id known.id
    && str_eq p.role role_parent
    && eq_ℤ p.session_version known.session_version

abbrev pub is_approved : List Person → Person → Option Person → Bool
is_approved people owner none = str_eq owner.role role_parent
is_approved people owner (some approver) =
    str_eq owner.role role_parent || any (approves approver) people

abbrev pub first_time : Option Time → Time → Option Time
first_time none now = some now
first_time (some at) now = some at

-- `update trusted_devices set revoked_at=coalesce(revoked_at,now())`.
unfoldable pub revoke_where : (Device → Bool) → Time → List Device → List Device
revoke_where test now ds =
    map (λ d. if test d then record d { revoked_at = first_time d.revoked_at now } else d) ds

abbrev pub has_token : String → Device → Bool
has_token hash d = str_eq d.token_hash hash

-- The row that is inserted: of the owner, in the owner's session.
abbrev pub device_row : Device → Person → Device
device_row d owner = record d {
  participant_id = owner.id;
  session_version = owner.session_version;
  revoked_at = none;
}

-- `CreateDevice`; the approver is absent where a parent remembers the own device.
unfoldable pub create_device :
    House → Device → Person → Option Person → String → Time → House × Result (Unit {0})
create_device w d owner approver previous_hash now =
    if not (any (unchanged owner) w.people) || not (is_approved w.people owner approver)
    then (w, err unauthorized)
    else (
      record w {
        devices = revoke_where (has_token previous_hash) now (w.devices ++ device_row d owner ∷ []);
      },
      ok tt,
    )

abbrev pub was_revoked : Option Time → Bool
was_revoked none = false
was_revoked (some at) = true

-- The device's participant, with the session version of the device.
abbrev pub serves : Device → Person → Bool
serves d p =
    eq_ℤ p.id d.participant_id
    && p.active
    && (str_eq p.role role_parent || str_eq p.role role_child)
    && eq_ℤ p.session_version d.session_version

abbrev pub admits : List Person → String → Time → Device → Bool
admits people hash now d =
    has_token hash d
    && not (was_revoked d.revoked_at)
    && ltb now d.expires_at
    && any (serves d) people

abbrev pub seen_until : Time → Time → Device → Device
seen_until now expires d = record d { last_seen_at = now; expires_at = expires }

unfoldable pub first_served : Device → List Person → Option Person
first_served d [] = none
first_served d (p ∷ ps) = let rest = first_served d ps in if serves d p then some p else rest

unfoldable pub with_device : Device → Option Person → Option (Person × Device)
with_device d none = none
with_device d (some p) = some (p, d)

unfoldable pub admitted_by :
    List Person → String → Time → Time → List Device → Option (Person × Device)
admitted_by people hash now expires [] = none
admitted_by people hash now expires (d ∷ ds) =
    let rest = admitted_by people hash now expires ds in
    if admits people hash now d
    then with_device (seen_until now expires d) (first_served d people)
    else rest

unfoldable pub touch : List Person → String → Time → Time → List Device → List Device
touch people hash now expires ds =
    map (λ d. if admits people hash now d then seen_until now expires d else d) ds

unfoldable pub session_result : Option (Person × Device) → Result (Person × Device)
session_result none = err unauthorized
session_result (some found) = ok found

-- `AuthenticateDevice`.
unfoldable pub authenticate_device : House → String → Time → Time → House × Result (Person × Device)
authenticate_device w hash now expires = (
  record w { devices = touch w.people hash now expires w.devices },
  session_result (admitted_by w.people hash now expires w.devices),
)

abbrev pub authorizes : String → ℤ → ℤ → Time → Device → Bool
authorizes id owner version now d =
    str_eq d.id id
    && eq_ℤ d.participant_id owner
    && eq_ℤ d.session_version version
    && not (was_revoked d.revoked_at)
    && ltb now d.expires_at

-- `DeviceAuthorized`.
unfoldable pub device_authorized : House → String → ℤ → ℤ → Time → Result (Unit {0})
device_authorized w id owner version now =
    if any (authorizes id owner version now) w.devices then ok tt else err unauthorized

abbrev pub device_with : String → Device → Bool
device_with id d = str_eq d.id id

-- `RevokeDevice`.
unfoldable pub revoke_device : House → String → Time → House × Result (Unit {0})
revoke_device w id now =
    if any (device_with id) w.devices
    then (record w { devices = revoke_where (device_with id) now w.devices }, ok tt)
    else (w, err not_found)

-- `RevokeDeviceToken`.
unfoldable pub revoke_device_token : House → String → Time → House
revoke_device_token w hash now = record w { devices = revoke_where (has_token hash) now w.devices }
