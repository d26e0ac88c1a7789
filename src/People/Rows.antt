-- ===== src/People/Rows.antt =====
-- What the calls do to the rows of the participants (backend/internal/store/store.go and
-- devices.go).
use family_quest.Base.{
  ◌≡◌, refl, Bool, true, false, not, ◌&&◌, [], ◌∷◌, ◌++◌, map, String, ℤ, pos, lt_ℤ, le_ℤ, any,
  +ℤ_parts, ◌||◌, arith, Bool-cases, inl, inr, Result, ok, err, Option, none, some, eq_ℤ, str_eq,
  if◌then◌else◌,
}
use family_quest.Domain.Dates.{Time}
use family_quest.Domain.Principals.{validate_pin, role_child}
use family_quest.Application.Access.{is_open}
use family_quest.People.Tables.{
  Person, Device, House, Hashing, has_id, active_with, is_active_child,
}
use family_quest.People.Members.{
  count_if, create_participant, create_valid, create_hashed, insert_person, new_person,
  role_or_child, delete_participant, is_last_parent, retire, is_owner, update_participant_pin,
  update_hashed, renew_pin, with_pin, verify_participant_pin, verify_found, upgrade, hash_one,
  find_active, has_name, is_legacy,
}
use family_quest.People.Devices.{
  create_device, authenticate_device, revoke_device, revoke_device_token,
}
use family_quest.People.Changes.{
  Change, joins, leaves, renews, signs_in, trusts, returns, drops, forgets, apply_change,
}
use family_quest.People.Closed.{
  outdated, is_closed, is_closed-people, Grows, outdated-map, outdated-append_end,
}

pub with_pin-newer :
    (hash : String) (p : Person) → lt_ℤ p.session_version (with_pin hash p).session_version ≡ true
with_pin-newer hash p = ground (arith, +ℤ_parts p.session_version (pos 1))

renew-Grows :
    (id : ℤ) (hash : String) → Grows (λ p. if active_with id p then with_pin hash p else p)
renew-Grows id hash p who version = (ground arith, λ h. ground (arith, with_pin-newer hash p))

retire-Grows : (id : ℤ) → Grows (λ p. if eq_ℤ p.id id then record p { active = false } else p)
retire-Grows id p who version = (ground arith, λ h. ground arith)

hash_one-Grows : (id : ℤ) (pin hash : String) → Grows (hash_one id pin hash)
hash_one-Grows id pin hash p who version = (ground arith, λ h. ground arith)

-- The devices stay, and the rows of the participants stay, are rewritten one by one, or a new
-- participant's row is added.
pub data RowsStep (w u : House) : Type 0 where
  same : u.people ≡ w.people → u.devices ≡ w.devices → RowsStep w u
  rewritten :
      (f : Person → Person)
      → Grows f
      → u.people ≡ map f w.people
      → u.devices ≡ w.devices
      → RowsStep w u
  added :
      (p : Person)
      → any (has_id p.id) w.people ≡ false
      → u.people ≡ w.people ++ p ∷ []
      → u.devices ≡ w.devices
      → RowsStep w u

RowsStep-outdated :
    (w u : House) (id version : ℤ)
    → RowsStep w u
    → outdated w.people id version ≡ true
    → outdated u.people id version ≡ true
RowsStep-outdated w u id version (same e d) h = rw e h
RowsStep-outdated w u id version (rewritten f g e d) h =
    rw e (outdated-map f w.people id version g h)
RowsStep-outdated w u id version (added p fresh e d) h =
    rw e (outdated-append_end w.people p id version fresh h)

RowsStep-devices : (w u : House) → RowsStep w u → u.devices ≡ w.devices
RowsStep-devices w u (same e d) = d
RowsStep-devices w u (rewritten f g e d) = d
RowsStep-devices w u (added p fresh e d) = d

-- A device that is closed stays closed.
pub RowsStep-is_closed :
    (hash : String) (w u : House)
    → RowsStep w u
    → is_closed hash w.people w.devices ≡ true
    → is_closed hash u.people u.devices ≡ true
RowsStep-is_closed hash w u step h = rw (RowsStep-devices w u step) (
    is_closed-people hash w.people u.people w.devices
      (λ id version. RowsStep-outdated w u id version step) h)

-- A new participant has a new identifier, as the table's sequence gives it.
abbrev pub is_new : House → Change → Bool
is_new w (joins id name role pin) = not (any (has_id id) w.people)
is_new w _ = true

insert_person-RowsStep :
    (w : House) (id : ℤ) (name role hash : String) (now : Time)
    → any (has_id id) w.people ≡ false
    → RowsStep w (insert_person w id name role hash now).0
unfolding insert_person
insert_person-RowsStep w id name role hash now fresh =
    elim (Bool-cases (lt_ℤ (pos 0) w.family_id && not (is_open w.access_until now))) [
      | inl closed ↦ rw closed (same refl refl)
      | inr allowed ↦
          elim (Bool-cases (
            str_eq role role_child
            && le_ℤ w.child_limit (pos (count_if is_active_child w.people)))) [
              | inl full ↦ rw (allowed, full) (same refl refl)
              | inr room ↦ elim (Bool-cases (any (has_name name) w.people)) [
                | inl taken ↦ rw (allowed, room, taken) (same refl refl)
                | inr free ↦
                    rw (allowed, room, free) (added (new_person id name role hash) fresh refl refl)
              ]
            ]
    ]

create_hashed-RowsStep :
    (w : House) (id : ℤ) (name role : String) (now : Time) (hash : Option String)
    → any (has_id id) w.people ≡ false
    → RowsStep w (create_hashed w id name role now hash).0
unfolding create_hashed
create_hashed-RowsStep w id name role now none fresh = same refl refl
create_hashed-RowsStep w id name role now (some hash) fresh =
    insert_person-RowsStep w id name role hash now fresh

pub create_valid-RowsStep :
    (h : Hashing) (w : House) (id : ℤ) (name role pin : String) (now : Time) (r : Result (Unit {0}))
    → any (has_id id) w.people ≡ false
    → RowsStep w (create_valid h w id name role pin now r).0
unfolding create_valid
create_valid-RowsStep h w id name role pin now (err e) fresh = same refl refl
create_valid-RowsStep h w id name role pin now (ok u) fresh =
    create_hashed-RowsStep w id name (role_or_child role) now (h.generate pin) fresh

pub delete_participant-RowsStep : (w : House) (id : ℤ) → RowsStep w (delete_participant w id).0
unfolding delete_participant retire
delete_participant-RowsStep w id =
    elim (Bool-cases (is_owner w.owner id || is_last_parent w.people id)) [
      | inl refused ↦ rw refused (same refl refl)
      | inr others ↦ elim (Bool-cases (any (has_id id) w.people)) [
        | inl found ↦
            rw (others, found)
              (rewritten (λ p. if eq_ℤ p.id id then record p { active = false } else p)
                (retire-Grows id) refl refl)
        | inr missing ↦ rw (others, missing) (same refl refl)
      ]
    ]

pub update_hashed-RowsStep :
    (w : House) (id : ℤ) (hash : Option String) → RowsStep w (update_hashed w id hash).0
unfolding update_hashed renew_pin
update_hashed-RowsStep w id none = same refl refl
update_hashed-RowsStep w id (some hash) = elim (Bool-cases (any (active_with id) w.people)) [
  | inl found ↦ rw found (
      rewritten (λ p. if active_with id p then with_pin hash p else p) (renew-Grows id hash) refl
        refl)
  | inr missing ↦ rw missing (same refl refl)
]

upgrade-RowsStep :
    (w : House) (id : ℤ) (pin : String) (p : Person) (hash : Option String)
    → RowsStep w (upgrade w id pin p hash).0
unfolding upgrade
upgrade-RowsStep w id pin p none = same refl refl
upgrade-RowsStep w id pin p (some hash) =
    rewritten (hash_one id pin hash) (hash_one-Grows id pin hash) refl refl

pub verify_found-RowsStep :
    (h : Hashing) (w : House) (id : ℤ) (pin : String) (o : Option Person)
    → RowsStep w (verify_found h w id pin o).0
unfolding verify_found
verify_found-RowsStep h w id pin none = same refl refl
verify_found-RowsStep h w id pin (some p) = elim (Bool-cases (h.compare_hash p.pin_hash pin)) [
  | inl right ↦ rw right (same refl refl)
  | inr wrong ↦ elim (Bool-cases (is_legacy p pin)) [
    | inl legacy ↦ rw (wrong, legacy) (upgrade-RowsStep w id pin p (h.generate pin))
    | inr other ↦ rw (wrong, other) (same refl refl)
  ]
]

create_device-people :
    (w : House) (d : Device) (owner : Person) (approver : Option Person) (previous : String)
    (now : Time)
    → (create_device w d owner approver previous now).0.people ≡ w.people
unfolding create_device
create_device-people w d owner approver previous now = ground arith

revoke_device-people :
    (w : House) (id : String) (now : Time) → (revoke_device w id now).0.people ≡ w.people
unfolding revoke_device
revoke_device-people w id now = ground arith

apply_change-outdated :
    (h : Hashing) (w : House) (now : Time) (c : Change) (j version : ℤ)
    → is_new w c ≡ true
    → outdated w.people j version ≡ true
    → outdated (apply_change h w now c).people j version ≡ true
unfolding apply_change create_participant update_participant_pin verify_participant_pin
    authenticate_device revoke_device_token
apply_change-outdated h w now (joins id name role pin) j version new over =
    RowsStep-outdated w (create_valid h w id name role pin now (validate_pin pin)).0 j version
      (create_valid-RowsStep h w id name role pin now (validate_pin pin) (ground arith)) over
apply_change-outdated h w now (leaves id) j version new over =
    RowsStep-outdated w (delete_participant w id).0 j version (delete_participant-RowsStep w id)
      over
apply_change-outdated h w now (renews id pin) j version new over =
    RowsStep-outdated w (update_hashed w id (h.generate pin)).0 j version
      (update_hashed-RowsStep w id (h.generate pin)) over
apply_change-outdated h w now (signs_in id pin) j version new over =
    RowsStep-outdated w (verify_found h w id pin (find_active id w.people)).0 j version
      (verify_found-RowsStep h w id pin (find_active id w.people)) over
apply_change-outdated h w now (trusts d owner approver previous) j version new over =
    rw (create_device-people w d owner approver previous now) over
apply_change-outdated h w now (returns hash expires) j version new over = over
apply_change-outdated h w now (drops id) j version new over =
    rw (revoke_device-people w id now) over
apply_change-outdated h w now (forgets hash) j version new over = over

-- What any calls on participants and devices lead to.
pub data Calls (h : Hashing) (w : House) : House → Type 0 where
  none_yet : Calls h w w
  then_call :
      {u : House}
      → Calls h w u
      → (now : Time) (c : Change) → is_new u c ≡ true
      → Calls h w (apply_change h u now c)

-- A session that is over stays over.
pub Calls-outdated :
    (h : Hashing) (id version : ℤ) {w u : House}
    → Calls h w u
    → outdated w.people id version ≡ true
    → outdated u.people id version ≡ true
Calls-outdated h id version none_yet over = over
Calls-outdated h id version (then_call {u} past now c new) over =
    apply_change-outdated h u now c id version new (Calls-outdated h id version past over)
