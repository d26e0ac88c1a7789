-- ===== src/People/Trust.antt =====
-- Closed devices under the calls on participants and devices (backend/internal/store).
use family_quest.Base.{
  ◌≡◌, true, false, not, ◌||◌, [], ◌∷◌, ◌++◌, String, any, all-append_end, arith, Bool-cases, inl,
  inr, Option,
}
use family_quest.Domain.Dates.{Time}
use family_quest.Domain.Principals.{validate_pin}
use family_quest.People.Tables.{Person, Device, House, Hashing}
use family_quest.People.Members.{
  create_participant, create_valid, delete_participant, update_participant_pin, update_hashed,
  verify_participant_pin, verify_found, find_active,
}
use family_quest.People.Devices.{
  has_token, create_device, device_row, authenticate_device, revoke_device, revoke_device_token,
  unchanged, is_approved, device_with,
}
use family_quest.People.Changes.{
  Change, joins, leaves, renews, signs_in, trusts, returns, drops, forgets, apply_change, is_fresh,
  History, start, after,
}
use family_quest.People.Rows.{
  RowsStep-is_closed, create_valid-RowsStep, delete_participant-RowsStep, update_hashed-RowsStep,
  verify_found-RowsStep,
}
use family_quest.People.Closed.{is_closed_row, is_closed, is_closed-revoke, is_closed-touch}

-- The devices whose secret has the digest are closed.
abbrev pub IsClosed : String → House → Type 0
IsClosed hash w = is_closed hash w.people w.devices ≡ true

trust-IsClosed :
    (digest : String) (w : House) (d : Device) (owner : Person) (approver : Option Person)
    (previous : String) (now : Time)
    → has_token digest d ≡ false
    → IsClosed digest w
    → IsClosed digest (create_device w d owner approver previous now).0
unfolding create_device
trust-IsClosed digest w d owner approver previous now other c =
    let added =
      is_closed-revoke digest w.people (has_token previous) now
        (w.devices ++ device_row d owner ∷ [])
        (ground (
          arith,
          other,
          all-append_end (is_closed_row digest w.people) w.devices (device_row d owner),
        )) in
    elim (Bool-cases
      (not (any (unchanged owner) w.people) || not (is_approved w.people owner approver))) [
        | inl refused ↦ rw refused c
        | inr granted ↦ rw granted added
      ]

drop-IsClosed :
    (digest : String) (w : House) (id : String) (now : Time)
    → IsClosed digest w
    → IsClosed digest (revoke_device w id now).0
unfolding revoke_device
drop-IsClosed digest w id now c = elim (Bool-cases (any (device_with id) w.devices)) [
  | inl found ↦ rw found (is_closed-revoke digest w.people (device_with id) now w.devices c)
  | inr missing ↦ rw missing c
]

change-IsClosed :
    (digest : String) (h : Hashing) (w : House) (now : Time) (c : Change)
    → is_fresh digest w c ≡ true
    → IsClosed digest w
    → IsClosed digest (apply_change h w now c)
unfolding apply_change create_participant update_participant_pin verify_participant_pin
    authenticate_device revoke_device_token
change-IsClosed digest h w now (joins id name role pin) fresh c =
    RowsStep-is_closed digest w (create_valid h w id name role pin now (validate_pin pin)).0
      (create_valid-RowsStep h w id name role pin now (validate_pin pin) (ground arith)) c
change-IsClosed digest h w now (leaves id) fresh c =
    RowsStep-is_closed digest w (delete_participant w id).0 (delete_participant-RowsStep w id) c
change-IsClosed digest h w now (renews id pin) fresh c =
    RowsStep-is_closed digest w (update_hashed w id (h.generate pin)).0
      (update_hashed-RowsStep w id (h.generate pin)) c
change-IsClosed digest h w now (signs_in id pin) fresh c =
    RowsStep-is_closed digest w (verify_found h w id pin (find_active id w.people)).0
      (verify_found-RowsStep h w id pin (find_active id w.people)) c
change-IsClosed digest h w now (trusts d owner approver previous) fresh c =
    trust-IsClosed digest w d owner approver previous now (ground arith) c
change-IsClosed digest h w now (returns hash expires) fresh c =
    is_closed-touch digest hash w.people now expires w.devices c
change-IsClosed digest h w now (drops id) fresh c = drop-IsClosed digest w id now c
change-IsClosed digest h w now (forgets hash) fresh c =
    is_closed-revoke digest w.people (has_token hash) now w.devices c

pub History-IsClosed :
    (digest : String) (h : Hashing) {w u : House}
    → History h digest w u
    → IsClosed digest w
    → IsClosed digest u
History-IsClosed digest h start c = c
History-IsClosed digest h (after {u} past now change fresh) c =
    change-IsClosed digest h u now change fresh (History-IsClosed digest h past c)
