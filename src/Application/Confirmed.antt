-- ===== src/Application/Confirmed.antt =====
-- What a new PIN needs (`UpdateParticipantPIN` of backend/internal/application/service.go with
-- `CheckConfirmation` of devices.go).
use family_quest.Base.{
  ◌≡◌, refl, Bool, true, false, not, ◌||◌, List, ℕ, String, ℤ, arith, Error, Result, ok, err,
  forbidden, unauthorized, fail_if, >>=-eq-ok,
}
use family_quest.Domain.Dates.{Time}
use family_quest.Domain.Principals.{Principal, is_parent}
use family_quest.Auth.Token.{parse}
use family_quest.People.Tables.{Person, House}
use family_quest.Application.Access.{interactive_mutation, authorize_mutation, other_family}
use family_quest.Application.Sessions.{
  Env, house_service, get_person, may_confirm, is_empty_proof, check_proof, confirms, still_parent,
  check_device, check_confirmation,
}
use family_quest.Application.Members.{check_new_pin, update_checked, update_participant_pin_as}

fail_if-ok : (b : Bool) (y : Error) {x : Unit {0}} → fail_if b y ≡ ok x → b ≡ false
fail_if-ok true y h = cc
fail_if-ok false y h = refl

-- What stands behind an accepted proof: a token that was signed with the secret and is in force,
-- made out to this parent in this session and on this device, and the parent's own row.
pub record IsConfirmed (e : Env) (w : House) (p : Principal) (proof : List ℕ) (now : Time)
    : Type 0 where
  pub parent : is_parent p ≡ true
  pub proven :
      (v : Principal) × (parse e.encoding e.tokens proof now ≡ ok v) × (confirms p now v ≡ true)
  pub stored : (q : Person) × (get_person w p.participant_id ≡ ok q) × (still_parent p q ≡ true)
  pub device : check_device w p now ≡ ok tt

check_proof-ok :
    (p : Principal) (now : Time) (r : Result Principal) (x : Unit {0})
    → check_proof p now r ≡ ok x
    → (v : Principal) × (r ≡ ok v) × (confirms p now v ≡ true)
unfolding check_proof
check_proof-ok p now (err e) x h = absurd (cc)
check_proof-ok p now (ok v) x h =
    (v, refl, ground (arith, fail_if-ok (not (confirms p now v)) forbidden h))

may_confirm-parent :
    (w : House) (p : Principal) (now : Time) (x : Unit {0})
    → may_confirm w p now ≡ ok x
    → is_parent p ≡ true
unfolding may_confirm
may_confirm-parent w p now x h =
    let (a, first, rest) =
      >>=-eq-ok (authorize_mutation (house_service w now) p interactive_mutation)
        (λ u. fail_if (other_family (house_service w now) p || not (is_parent p)) forbidden) h in
    let passed =
      fail_if-ok (other_family (house_service w now) p || not (is_parent p)) forbidden rest in
    ground (arith, passed)

check_confirmation-IsConfirmed :
    (e : Env) (w : House) (p : Principal) (proof : List ℕ) (now : Time) (x : Unit {0})
    → check_confirmation e w p proof now ≡ ok x
    → IsConfirmed e w p proof now
unfolding check_confirmation
check_confirmation-IsConfirmed e w p proof now x h =
    let (a, allowed, after_role) = >>=-eq-ok (may_confirm w p now) _ h in
    let (b, given, after_text) =
      >>=-eq-ok (fail_if (is_empty_proof proof) forbidden) _ after_role in
    let (c, proven, after_proof) =
      >>=-eq-ok (check_proof p now (parse e.encoding e.tokens proof now)) _ after_text in
    let (q, found, after_row) = >>=-eq-ok (get_person w p.participant_id) _ after_proof in
    let (d, current, on_device) =
      >>=-eq-ok (fail_if (not (still_parent p q)) unauthorized) _ after_row in
    record {
      parent = may_confirm-parent w p now a allowed;
      proven = check_proof-ok p now (parse e.encoding e.tokens proof now) c proven;
      stored = (q, found, ground (arith, fail_if-ok (not (still_parent p q)) unauthorized current));
      device = on_device;
    }

check_new_pin-IsConfirmed :
    (e : Env) (w : House) (p : Principal) (pin : String) (proof : List ℕ) (now : Time)
    (x : Unit {0})
    → check_new_pin e w p pin proof now ≡ ok x
    → IsConfirmed e w p proof now
unfolding check_new_pin
check_new_pin-IsConfirmed e w p pin proof now x h =
    let (a, own, rest) = >>=-eq-ok (fail_if (other_family (house_service w now) p) forbidden) _ h in
    let (b, confirmed, others) = >>=-eq-ok (check_confirmation e w p proof now) _ rest in
    check_confirmation-IsConfirmed e w p proof now b confirmed

update_checked-ok :
    (e : Env) (w : House) (id : ℤ) (pin : String) (r : Result (Unit {0})) (x : Unit {0})
    → (update_checked e w id pin r).1 ≡ ok x
    → r ≡ ok tt
unfolding update_checked
update_checked-ok e w id pin (err y) x h = cc
update_checked-ok e w id pin (ok u) x h = refl

-- A PIN is changed only for a parent who has just confirmed it.
pub update_pin-IsConfirmed :
    (e : Env) (w : House) (actor : Principal) (id : ℤ) (pin : String) (proof : List ℕ) (now : Time)
    → (update_participant_pin_as e w actor id pin proof now).1 ≡ ok tt
    → IsConfirmed e w actor proof now
unfolding update_participant_pin_as
update_pin-IsConfirmed e w actor id pin proof now h =
    check_new_pin-IsConfirmed e w actor pin proof now tt
      (update_checked-ok e w id pin (check_new_pin e w actor pin proof now) tt h)
