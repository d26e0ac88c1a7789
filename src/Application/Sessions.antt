-- ===== src/Application/Sessions.antt =====
-- Who a request comes from (`Authenticate` and `ParseToken` of
-- backend/internal/application/service.go, `ConfirmParent` and `CheckConfirmation` of devices.go).
use family_quest.Base.{
  ℕ, Bool, true, false, not, ◌&&◌, ◌||◌, List, [], ◌∷◌, String, ℤ, pos, lt_ℤ, eq_ℤ, str_eq, Result,
  ok, err, unauthorized, forbidden, fail_if, ◌>>◌, ◌>>=◌, Option, none, some, if◌then◌else◌,
}
use family_quest.Domain.Dates.{Time}
use family_quest.Domain.Principals.{Principal, is_parent, validate_pin, role_parent}
use family_quest.Auth.Token.{Encoding, Tokens, Holder, issue, issue_confirmation, parse, unix}
use family_quest.People.Tables.{Person, House, Hashing}
use family_quest.People.Members.{find_active, verify_participant_pin}
use family_quest.People.Devices.{device_authorized}
use family_quest.People.Grants.{mcp_grant}
use family_quest.Application.Access.{
  Service, interactive_mutation, authorize_mutation, other_family,
}

-- What the service is built with: the tokens with their encoding, the hashing of PINs, and the
-- digest of a device's secret.
pub record Env : Type 0 where
  pub encoding : Encoding
  pub tokens : Tokens
  pub hashing : Hashing
  pub device_hash : String → String

abbrev pub house_service : House → Time → Service
house_service w now = record { family_id = w.family_id; access_until = w.access_until; now = now }

abbrev pub holder_of : Person → Holder
holder_of p = record { id = p.id; role = p.role; session_version = p.session_version }

unfoldable pub issue_verified :
    Env → Time → House × Result Person → House × Result (Person × List ℕ)
issue_verified e now (w, err x) = (w, err x)
issue_verified e now (w, ok p) = (w, ok (p, issue e.encoding e.tokens (holder_of p) now))

unfoldable pub authenticate_valid :
    Env → House → ℤ → String → Time → Result (Unit {0}) → House × Result (Person × List ℕ)
authenticate_valid e w id pin now (err x) = (w, err x)
authenticate_valid e w id pin now (ok u) =
    issue_verified e now (verify_participant_pin e.hashing w id pin)

-- `Authenticate`.
unfoldable pub authenticate : Env → House → ℤ → String → Time → House × Result (Person × List ℕ)
authenticate e w id pin now = authenticate_valid e w id pin now (validate_pin pin)

unfoldable pub known_person : Option Person → Result Person
known_person none = err unauthorized
known_person (some p) = ok p

-- `GetParticipant`.
unfoldable pub get_person : House → ℤ → Result Person
get_person w id = known_person (find_active id w.people)

abbrev pub same_session : Principal → Person → Bool
same_session p q = q.active && str_eq q.role p.role && eq_ℤ q.session_version p.session_version

unfoldable pub check_session : House → Principal → Result (Unit {0})
check_session w p = do
  q ← get_person w p.participant_id
  fail_if (not (same_session p q)) unauthorized

unfoldable pub with_grant : House → Principal → Time → Result Principal
with_grant w p now =
    if str_eq p.mcp_grant_id ""
    then ok p
    else (mcp_grant w p.mcp_grant_id p.participant_id p.session_version now >>= λ g.
        ok (record p { mcp_read_only = g.read_only }))

unfoldable pub admit_principal : House → Time → Principal → Result Principal
admit_principal w now p = do
  fail_if (not (eq_ℤ p.confirmed_until (pos 0)) || not (eq_ℤ p.family_id w.family_id)) unauthorized
  check_session w p
  with_grant w p now

-- `ParseToken`.
unfoldable pub parse_token : Env → House → List ℕ → Time → Result Principal
parse_token e w token now = parse e.encoding e.tokens token now >>= admit_principal w now

unfoldable pub may_confirm : House → Principal → Time → Result (Unit {0})
may_confirm w p now = do
  authorize_mutation (house_service w now) p interactive_mutation
  fail_if (other_family (house_service w now) p || not (is_parent p)) forbidden

unfoldable pub confirm_verified :
    Env → Principal → Time → House × Result Person → House × Result (List ℕ)
confirm_verified e p now (w, err x) = (w, err x)
confirm_verified e p now (w, ok q) =
    if not (eq_ℤ q.session_version p.session_version) || not (str_eq q.role p.role)
    then (w, err unauthorized)
    else (w, ok (issue_confirmation e.encoding e.tokens p now))

unfoldable pub confirm_allowed :
    Env → House → Principal → String → Time → Result (Unit {0}) → House × Result (List ℕ)
confirm_allowed e w p pin now (err x) = (w, err x)
confirm_allowed e w p pin now (ok u) =
    confirm_verified e p now (verify_participant_pin e.hashing w p.participant_id pin)

-- `ConfirmParent`.
unfoldable pub confirm_parent : Env → House → Principal → String → Time → House × Result (List ℕ)
confirm_parent e w p pin now =
    confirm_allowed e w p pin now (do may_confirm w p now; validate_pin pin)

abbrev pub is_empty_proof : List ℕ → Bool
is_empty_proof [] = true
is_empty_proof (c ∷ cs) = false

abbrev pub confirms : Principal → Time → Principal → Bool
confirms p now v =
    lt_ℤ (unix now) v.confirmed_until
    && eq_ℤ v.family_id p.family_id
    && eq_ℤ v.participant_id p.participant_id
    && eq_ℤ v.session_version p.session_version
    && str_eq v.role p.role
    && str_eq v.device_id p.device_id

unfoldable pub check_proof : Principal → Time → Result Principal → Result (Unit {0})
check_proof p now (err x) = err forbidden
check_proof p now (ok v) = fail_if (not (confirms p now v)) forbidden

abbrev pub still_parent : Principal → Person → Bool
still_parent p q = q.active && str_eq q.role role_parent && eq_ℤ q.session_version p.session_version

unfoldable pub check_device : House → Principal → Time → Result (Unit {0})
check_device w p now =
    if str_eq p.device_id ""
    then ok tt
    else device_authorized w p.device_id p.participant_id p.session_version now

-- `CheckConfirmation`.
unfoldable pub check_confirmation : Env → House → Principal → List ℕ → Time → Result (Unit {0})
check_confirmation e w p proof now = do
  may_confirm w p now
  fail_if (is_empty_proof proof) forbidden
  check_proof p now (parse e.encoding e.tokens proof now)
  q ← get_person w p.participant_id
  fail_if (not (still_parent p q)) unauthorized
  check_device w p now
