-- ===== src/People/PinChange.antt =====
-- Trusted devices after a new PIN (`UpdateParticipantPIN` of
-- backend/internal/store/store.go, `AuthenticateDevice` of devices.go).
use family_quest.Base.{
  ◌≡◌, refl, ap, ◌∙◌, Bool, true, false, not, ◌&&◌, ◌||◌, List, [], ◌∷◌, String, ℤ, le_ℤ, eq_ℤ,
  eq_ℤ_iff, any, all, arith, Bool-cases, inl, inr, ok, err, unauthorized, Option, none, some,
}
use family_quest.Domain.Dates.{Time}
use family_quest.People.Tables.{Person, Device, House, Hashing, has_id, active_with}
use family_quest.People.Members.{update_participant_pin, update_hashed, renew_pin}
use family_quest.People.Devices.{
  has_token, authenticate_device, serves, admits, admitted_by, session_result,
}
use family_quest.People.Changes.{History}
use family_quest.People.Closed.{is_newer, outdated, is_closed_row, is_closed}
use family_quest.People.Rows.{with_pin-newer}
use family_quest.People.Trust.{IsClosed, History-IsClosed}

outdated-serves :
    (d : Device) (ps : List Person)
    → all (is_newer d.participant_id d.session_version) ps ≡ true
    → any (serves d) ps ≡ false
outdated-serves d [] h = refl
outdated-serves d (p ∷ ps) h = ground (arith, outdated-serves d ps)

closed-admits :
    (hash : String) (ps : List Person) (now : Time) (d : Device)
    → is_closed_row hash ps d ≡ true
    → admits ps hash now d ≡ false
closed-admits hash ps now d h = ground (arith, outdated-serves d ps)

closed-admitted_by :
    (hash : String) (ps : List Person) (now expires : Time) (ds : List Device)
    → is_closed hash ps ds ≡ true
    → admitted_by ps hash now expires ds ≡ none
unfolding admitted_by
closed-admitted_by hash ps now expires [] h = refl
closed-admitted_by hash ps now expires (d ∷ ds) h =
    let shut = closed-admits hash ps now d (ground arith) in
    rw shut (closed-admitted_by hash ps now expires ds (ground arith))

closed_refused :
    (hash : String) (w : House) (now expires : Time)
    → IsClosed hash w
    → (authenticate_device w hash now expires).1 ≡ err unauthorized
unfolding authenticate_device session_result
closed_refused hash w now expires c =
    rw (closed-admitted_by hash w.people now expires w.devices c) refl

-- The device is the participant's, and not of a session to come.
abbrev pub not_ahead : ℤ → ℤ → Person → Bool
not_ahead id version p = not (has_id id p) || le_ℤ version p.session_version

abbrev pub belongs : ℤ → List Person → Device → Bool
belongs id people d = eq_ℤ d.participant_id id && all (not_ahead id d.session_version) people

abbrev pub token_belongs : String → ℤ → List Person → Device → Bool
token_belongs hash id people d = not (has_token hash d) || belongs id people d

pub renewed_newer :
    (id version : ℤ) (hash : String) (ps : List Person)
    → all (not_ahead id version) ps ≡ true
    → all (is_newer id version) (renew_pin id hash ps) ≡ true
unfolding renew_pin
renewed_newer id version hash [] h = refl
renewed_newer id version hash (p ∷ ps) h =
    ground (arith, with_pin-newer hash p, renewed_newer id version hash ps)

pub renewed_any :
    (id : ℤ) (hash : String) (ps : List Person)
    → any (active_with id) ps ≡ true
    → any (has_id id) (renew_pin id hash ps) ≡ true
unfolding renew_pin
renewed_any id hash [] h = cc
renewed_any id hash (p ∷ ps) h = ground (arith, renewed_any id hash ps)

renewed_row :
    (digest : String) (id : ℤ) (hash : String) (ps : List Person) (d : Device)
    → any (active_with id) ps ≡ true
    → token_belongs digest id ps d ≡ true
    → is_closed_row digest (renew_pin id hash ps) d ≡ true
renewed_row digest id hash ps d found h = elim (Bool-cases (has_token digest d)) [
  | inr other ↦ ground (arith, other)
  | inl mine ↦
      let owner : d.participant_id ≡ id = (eq_ℤ_iff d.participant_id id).0 (ground arith) in
      let over : outdated (renew_pin id hash ps) id d.session_version ≡ true =
        ground (arith, renewed_any id hash ps found, renewed_newer id d.session_version hash ps) in
      let stale = ap (λ i. outdated (renew_pin id hash ps) i d.session_version) owner ∙ over in
      ground (arith, stale)
]

renewed_closed :
    (digest : String) (id : ℤ) (hash : String) (ps : List Person) (ds : List Device)
    → any (active_with id) ps ≡ true
    → all (token_belongs digest id ps) ds ≡ true
    → is_closed digest (renew_pin id hash ps) ds ≡ true
renewed_closed digest id hash ps [] found h = refl
renewed_closed digest id hash ps (d ∷ ds) found h =
    ground (arith, renewed_row digest id hash ps d found, renewed_closed digest id hash ps ds found)

update-closes :
    (digest : String) (w : House) (id : ℤ) (hash : Option String)
    → (update_hashed w id hash).1 ≡ ok tt
    → all (token_belongs digest id w.people) w.devices ≡ true
    → IsClosed digest (update_hashed w id hash).0
unfolding update_hashed
update-closes digest w id none h mine = absurd (cc)
update-closes digest w id (some hash) h mine = elim (Bool-cases (any (active_with id) w.people)) [
  | inl found ↦ rw found (renewed_closed digest id hash w.people w.devices found mine)
  | inr missing ↦ absurd (let bad = rw missing at h in cc)
]

-- After a participant's PIN has been changed, no device of this participant with a given token
-- signs in again, through any calls; where no such device is of a session that is yet to come,
-- and new participants and devices get identifiers and tokens of their own.
pub pin_change_refuses :
    (h : Hashing) (w : House) (id : ℤ) (pin digest : String) {u : House}
    → (update_participant_pin h w id pin).1 ≡ ok tt
    → all (token_belongs digest id w.people) w.devices ≡ true
    → History h digest (update_participant_pin h w id pin).0 u
    → (now expires : Time) → (authenticate_device u digest now expires).1 ≡ err unauthorized
unfolding update_participant_pin
pin_change_refuses h w id pin digest {u} done mine past now expires =
    closed_refused digest u now expires
      (History-IsClosed digest h past (update-closes digest w id (h.generate pin) done mine))
