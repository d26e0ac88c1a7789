-- ===== src/People/Members.antt =====
-- Participants and their PINs (`CreateParticipant`, `DeleteParticipant`, `UpdateParticipantPIN` and
-- `VerifyParticipantPIN` of backend/internal/store/store.go). Of a participant that is returned only
-- the row is kept.
use family_quest.Base.{
  ℕ, suc, Bool, true, false, not, ◌&&◌, ◌||◌, List, [], ◌∷◌, ◌++◌, map, String, ℤ, pos, ◌+ℤ◌, lt_ℤ,
  le_ℤ, eq_ℤ, str_eq, any, ◌==◌, Result, ok, err, not_found, conflict, forbidden, invalid_pin,
  password_too_long, Option, none, some, if◌then◌else◌,
}
use family_quest.Domain.Dates.{Time}
use family_quest.Domain.Principals.{validate_pin, role_child}
use family_quest.Application.Access.{is_open}
use family_quest.Tasks.Tables.{Assignment}
use family_quest.People.Tables.{
  Person, RewardParticipant, House, Hashing, has_id, active_with, is_active_parent, is_active_child,
}

unfoldable pub count_if : (Person → Bool) → List Person → ℕ
count_if test [] = 0
count_if test (p ∷ ps) = let rest = count_if test ps in if test p then suc rest else rest

abbrev pub has_name : String → Person → Bool
has_name name p = str_eq p.name name

abbrev pub role_or_child : String → String
role_or_child role = if str_eq role "" then "child" else role

abbrev pub new_person : ℤ → String → String → String → Person
new_person id name role hash = record {
  id = id;
  name = name;
  role = role;
  pin_code = none;
  pin_hash = hash;
  active = true;
  session_version = pos 0;
}

unfoldable pub insert_person : House → ℤ → String → String → String → Time → House × Result ℤ
insert_person w id name role hash now =
    if lt_ℤ (pos 0) w.family_id && not (is_open w.access_until now)
    then (w, err forbidden)
    else if str_eq role role_child && le_ℤ w.child_limit (pos (count_if is_active_child w.people))
    then (w, err conflict)
    else if any (has_name name) w.people
    then (w, err conflict)
    else (record w { people = w.people ++ new_person id name role hash ∷ [] }, ok id)

unfoldable pub create_hashed : House → ℤ → String → String → Time → Option String → House × Result ℤ
create_hashed w id name role now none = (w, err password_too_long)
create_hashed w id name role now (some hash) = insert_person w id name role hash now

unfoldable pub create_valid :
    Hashing → House → ℤ → String → String → String → Time → Result (Unit {0}) → House × Result ℤ
create_valid h w id name role pin now (err e) = (w, err e)
create_valid h w id name role pin now (ok u) =
    create_hashed w id name (role_or_child role) now (h.generate pin)

-- `CreateParticipant`; the identifier is the next one of the table's sequence.
unfoldable pub create_participant :
    Hashing → House → ℤ → String → String → String → Time → House × Result ℤ
create_participant h w id name role pin now =
    create_valid h w id name role pin now (validate_pin pin)

abbrev pub is_owner : Option ℤ → ℤ → Bool
is_owner none id = false
is_owner (some owner) id = eq_ℤ owner id

abbrev pub parent_with : ℤ → Person → Bool
parent_with id p = eq_ℤ p.id id && is_active_parent p

abbrev pub is_last_parent : List Person → ℤ → Bool
is_last_parent people id = any (parent_with id) people && (count_if is_active_parent people == 1)

unfoldable pub retire : ℤ → List Person → List Person
retire id people = map (λ p. if eq_ℤ p.id id then record p { active = false } else p) people

unfoldable pub close_assignments : ℤ → List Assignment → List Assignment
close_assignments id rows =
    map (λ a. if eq_ℤ a.participant_id id then record a { active = false } else a) rows

unfoldable pub close_rewards : ℤ → List RewardParticipant → List RewardParticipant
close_rewards id rows =
    map (λ r. if eq_ℤ r.participant_id id then record r { active = false } else r) rows

-- `DeleteParticipant`.
unfoldable pub delete_participant : House → ℤ → House × Result (Unit {0})
delete_participant w id =
    if is_owner w.owner id || is_last_parent w.people id
    then (w, err conflict)
    else if not (any (has_id id) w.people)
    then (w, err not_found)
    else (
      record w {
        people = retire id w.people;
        assignments = close_assignments id w.assignments;
        reward_participants = close_rewards id w.reward_participants;
      },
      ok tt,
    )

abbrev pub with_pin : String → Person → Person
with_pin hash p = record p {
  pin_code = none;
  pin_hash = hash;
  session_version = p.session_version +ℤ pos 1;
}

unfoldable pub renew_pin : ℤ → String → List Person → List Person
renew_pin id hash people = map (λ p. if active_with id p then with_pin hash p else p) people

unfoldable pub update_hashed : House → ℤ → Option String → House × Result (Unit {0})
update_hashed w id none = (w, err password_too_long)
update_hashed w id (some hash) =
    if any (active_with id) w.people
    then (record w { people = renew_pin id hash w.people }, ok tt)
    else (w, err not_found)

-- `UpdateParticipantPIN`.
unfoldable pub update_participant_pin : Hashing → House → ℤ → String → House × Result (Unit {0})
update_participant_pin h w id pin = update_hashed w id (h.generate pin)

unfoldable pub find_active : ℤ → List Person → Option Person
find_active id [] = none
find_active id (p ∷ ps) = let rest = find_active id ps in if active_with id p then some p else rest

abbrev pub is_code : Option String → String → Bool
is_code none pin = false
is_code (some code) pin = str_eq code pin

-- A row that still has the PIN in the clear.
abbrev pub is_legacy : Person → String → Bool
is_legacy p pin = str_eq p.pin_hash "" && is_code p.pin_code pin

abbrev pub hash_one : ℤ → String → String → Person → Person
hash_one id pin hash p =
    if eq_ℤ p.id id && is_legacy p pin then record p { pin_code = none; pin_hash = hash } else p

unfoldable pub upgrade : House → ℤ → String → Person → Option String → House × Result Person
upgrade w id pin p none = (w, err password_too_long)
upgrade w id pin p (some hash) = (record w { people = map (hash_one id pin hash) w.people }, ok p)

unfoldable pub verify_found : Hashing → House → ℤ → String → Option Person → House × Result Person
verify_found h w id pin none = (w, err invalid_pin)
verify_found h w id pin (some p) =
    if h.compare_hash p.pin_hash pin
    then (w, ok p)
    else if is_legacy p pin
    then upgrade w id pin p (h.generate pin)
    else (w, err invalid_pin)

-- `VerifyParticipantPIN`.
unfoldable pub verify_participant_pin : Hashing → House → ℤ → String → House × Result Person
verify_participant_pin h w id pin = verify_found h w id pin (find_active id w.people)
