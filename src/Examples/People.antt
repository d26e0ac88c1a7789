-- ===== src/Examples/People.antt =====
-- A family with a parent, a child and a trusted device, and its tokens (backend/internal/store,
-- backend/internal/application).
use family_quest.Base.{
  ℕ, ◌+◌, ◌-◌, ◌≡◌, refl, ap, true, false, List, [], ◌∷◌, ◌&◌, map, pos, le_ℤ, str_eq, any, arith,
  ok, err, unauthorized, none, some, if◌then◌else◌,
}
use family_quest.Domain.Principals.{validate_pin, validate_role}
use family_quest.Auth.Token.{
  Claims, Encoding, Tokens, issue, parse, unix, session_claims, claims_principal,
}
use family_quest.Auth.Split.{is_dot}
use family_quest.Auth.RoundTrip.{IsFaithful, parse-issue}
use family_quest.People.Tables.{Person, Device, House, Hashing}
use family_quest.People.Members.{
  count_if, find_active, verify_participant_pin, verify_found, update_participant_pin,
  update_hashed, create_participant, delete_participant,
}
use family_quest.People.Devices.{authenticate_device}
use family_quest.People.Parents.{IsManned, members-IsManned}
use family_quest.People.Changes.{start, renews, apply_change}
use family_quest.People.Rows.{none_yet, then_call}
use family_quest.People.PinChange.{pin_change_refuses}
use family_quest.Application.Sessions.{
  Env, holder_of, authenticate, authenticate_valid, issue_verified, parse_token,
}
use family_quest.Application.SignIn.{authenticate-parse_token}
use family_quest.Application.SignedOut.{pin_change_signs_out}
use family_quest.Examples.Data.{noon, evening}

abbrev parent_person : Person
parent_person = record {
  id = pos 1;
  name = "Мама";
  role = "parent";
  pin_code = none;
  pin_hash = "#123456";
  active = true;
  session_version = pos 0;
}

abbrev child_person : Person
child_person = record parent_person {
  id = pos 2;
  name = "Петя";
  role = "child";
  pin_hash = "#000000";
}

abbrev tablet : Device
tablet = record {
  id = "d";
  participant_id = pos 1;
  session_version = pos 0;
  token_hash = "t";
  name = "Планшет";
  created_at = noon;
  last_seen_at = noon;
  expires_at = evening;
  revoked_at = none;
}

abbrev house : House
house = record {
  family_id = pos 1;
  people = parent_person ∷ child_person ∷ [];
  devices = tablet ∷ [];
  grants = [];
  assignments = [];
  reward_participants = [];
  child_limit = pos 3;
  access_until = none;
  owner = none;
}

-- A hash is the PIN behind a sign.
abbrev sign_hashing : Hashing
sign_hashing = record {
  generate = λ pin. some ("#" & pin);
  compare_hash = λ hash pin. str_eq hash ("#" & pin);
}

abbrev shift : List ℕ → List ℕ
shift bytes = map (λ n. n + 47) bytes

abbrev unshift : List ℕ → List ℕ
unshift bytes = map (λ n. n - 47) bytes

unshift-shift : (bytes : List ℕ) → unshift (shift bytes) ≡ bytes
unshift-shift [] = refl
unshift-shift (n ∷ ns) = ground (arith, unshift-shift ns)

shift_no_dot : (bytes : List ℕ) → any is_dot (shift bytes) ≡ false
shift_no_dot [] = refl
shift_no_dot (n ∷ ns) = ground (arith, shift_no_dot ns)

-- Every byte is moved above the dot, and the claims are a table of one entry.
abbrev one_token : Claims → Encoding
one_token c = record {
  encode = shift;
  decode = λ bytes. some (unshift bytes);
  marshal = λ claims. 1 ∷ [];
  unmarshal = λ bytes. some c;
  mac = λ key text. 2 ∷ [];
}

one_token-IsFaithful : (c : Claims) → IsFaithful (one_token c) c
one_token-IsFaithful c = record {
  decodes = λ b h. ap some (unshift-shift b);
  no_dot = shift_no_dot;
  json_bytes = refl;
  mac_bytes = λ key text. refl;
  reads_back = refl;
}

abbrev tokens : Tokens
tokens = record { family_id = pos 1; secret = []; ttl = 3_600_000_000_000 }

abbrev parent_claims : Claims
parent_claims = session_claims tokens (holder_of parent_person) noon

abbrev env : Env
env = record {
  encoding = one_token parent_claims;
  tokens = tokens;
  hashing = sign_hashing;
  device_hash = λ secret. secret;
}

abbrev parent_token : List ℕ
parent_token = issue (one_token parent_claims) tokens (holder_of parent_person) noon

signs_in_ok :
    authenticate env house (pos 1) "123456" noon ≡ (house, ok (parent_person, parent_token))
unfolding authenticate authenticate_valid verify_participant_pin verify_found find_active
    issue_verified validate_pin
signs_in_ok = refl

parent_role : validate_role "parent" ≡ ok tt
unfolding validate_role
parent_role = refl

authenticate-parse_token_example : parse_token env house parent_token evening ≡ (
    if le_ℤ (unix (noon + 3_600_000_000_000)) (unix evening)
    then err unauthorized
    else ok (claims_principal parent_claims (pos 1)))
authenticate-parse_token_example =
    authenticate-parse_token env house house (pos 1) 0 "123456" parent_person parent_token noon
      evening refl (one_token-IsFaithful parent_claims) refl (omega arith) parent_role signs_in_ok

house-IsManned : IsManned house
unfolding count_if
house-IsManned = record { parent = omega arith; children = omega arith }

members-IsManned_example :
    IsManned (create_participant sign_hashing house (pos 2) "Оля" "child" "111111" noon).0
    × IsManned (delete_participant house (pos 2)).0
    × IsManned (update_participant_pin sign_hashing house (pos 2) "111111").0
    × IsManned (verify_participant_pin sign_hashing house (pos 2) "111111").0
unfolding count_if
members-IsManned_example =
    members-IsManned sign_hashing house (pos 2) "Оля" "child" "111111" noon (omega arith)
      house-IsManned

pin_changed : (update_participant_pin sign_hashing house (pos 1) "654321").1 ≡ ok tt
unfolding update_participant_pin update_hashed
pin_changed = refl

pin_change_refuses_example :
    (authenticate_device
      (update_participant_pin sign_hashing house (pos 1) "654321").0
      "t"
      noon
      evening).1
    ≡ err unauthorized
pin_change_refuses_example =
    pin_change_refuses sign_hashing house (pos 1) "654321" "t" pin_changed refl start noon evening

-- The token of the parent's sign-in is in force.
token_in_force :
    parse env.encoding env.tokens parent_token noon ≡ ok (claims_principal parent_claims (pos 1))
unfolding unix
token_in_force =
    parse-issue env.encoding env.tokens env.tokens (holder_of parent_person) 0 noon noon
      (one_token-IsFaithful parent_claims) refl refl (omega arith) parent_role

pin_change_signs_out_example :
    parse_token env
      (apply_change sign_hashing
        (update_participant_pin sign_hashing house (pos 1) "654321").0
        noon
        (renews (pos 2) "111111"))
      parent_token
      noon
    ≡ err unauthorized
pin_change_signs_out_example =
    pin_change_signs_out env house (pos 1) "654321" parent_token
      (claims_principal parent_claims (pos 1)) noon pin_changed token_in_force refl refl
      (then_call none_yet noon (renews (pos 2) "111111") refl)
