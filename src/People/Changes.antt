-- ===== src/People/Changes.antt =====
-- The calls of store.go and devices.go (backend/internal/store) on participants and devices.
use family_quest.Base.{◌≡◌, Bool, true, not, String, ℤ, Option, any}
use family_quest.Domain.Dates.{Time}
use family_quest.People.Tables.{Person, Device, House, Hashing, has_id}
use family_quest.People.Members.{
  create_participant, delete_participant, update_participant_pin, verify_participant_pin,
}
use family_quest.People.Devices.{
  has_token, create_device, authenticate_device, revoke_device, revoke_device_token,
}

-- `joins` carries the identifier that the database gives, `trusts` the device with the digest of its
-- secret.
pub data Change : Type 0 where
  joins : ℤ → String → String → String → Change
  leaves : ℤ → Change
  renews : ℤ → String → Change
  signs_in : ℤ → String → Change
  trusts : Device → Person → Option Person → String → Change
  returns : String → Time → Change
  drops : String → Change
  forgets : String → Change

unfoldable pub apply_change : Hashing → House → Time → Change → House
apply_change h w now (joins id name role pin) = (create_participant h w id name role pin now).0
apply_change h w now (leaves id) = (delete_participant w id).0
apply_change h w now (renews id pin) = (update_participant_pin h w id pin).0
apply_change h w now (signs_in id pin) = (verify_participant_pin h w id pin).0
apply_change h w now (trusts d owner approver previous) =
    (create_device w d owner approver previous now).0
apply_change h w now (returns hash expires) = (authenticate_device w hash now expires).0
apply_change h w now (drops id) = (revoke_device w id now).0
apply_change h w now (forgets hash) = revoke_device_token w hash now

-- A new participant has a new identifier, as the table's sequence gives it, and a new device has
-- another digest than this one, as the column's uniqueness asks.
abbrev pub is_fresh : String → House → Change → Bool
is_fresh hash w (joins id name role pin) = not (any (has_id id) w.people)
is_fresh hash w (trusts d owner approver previous) = not (has_token hash d)
is_fresh hash w _ = true

-- What the calls lead to.
pub data History (h : Hashing) (hash : String) (w : House) : House → Type 0 where
  start : History h hash w w
  after :
      {u : House}
      → History h hash w u
      → (now : Time) (c : Change) → is_fresh hash u c ≡ true
      → History h hash w (apply_change h u now c)
