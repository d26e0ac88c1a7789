-- ===== src/Application/SignedOut.antt =====
-- What a new PIN does to the tokens that were given before (`ParseToken` of
-- backend/internal/application/service.go, `UpdateParticipantPIN` of backend/internal/store/store.go).
use family_quest.Base.{
  ◌≡◌, refl, ap, ◌∙◌, Bool, true, false, List, ℕ, [], ◌∷◌, String, ℤ, eq_ℤ_iff, any, all, arith,
  Bool-cases, inl, inr, ok, err, unauthorized, Option, none, some,
}
use family_quest.Domain.Dates.{Time}
use family_quest.Domain.Principals.{Principal}
use family_quest.Auth.Token.{parse}
use family_quest.People.Tables.{Person, House, active_with}
use family_quest.People.Members.{find_active, update_participant_pin, update_hashed}
use family_quest.People.Closed.{is_newer, outdated}
use family_quest.People.PinChange.{not_ahead, renewed_newer, renewed_any}
use family_quest.People.Rows.{Calls, Calls-outdated}
use family_quest.Application.Sessions.{
  Env, get_person, known_person, same_session, check_session, admit_principal, parse_token,
}
use family_quest.Application.SignIn.{find_active_row}

find_active-all :
    (test : Person → Bool) (id : ℤ) (ps : List Person) (q : Person)
    → all test ps ≡ true
    → find_active id ps ≡ some q
    → test q ≡ true
unfolding find_active
find_active-all test id [] q h found = absurd (cc)
find_active-all test id (p ∷ ps) q h found = elim (Bool-cases (active_with id p)) [
  | inl hit ↦
      let first : some p ≡ some q = rw hit at found in let good : test p ≡ true = ground arith in cc
  | inr miss ↦ find_active-all test id ps q (ground arith) (rw miss at found)
]

-- Whoever is found is in a later session.
found-refused :
    (v : Principal) (ps : List Person) (o : Option Person)
    → find_active v.participant_id ps ≡ o
    → all (is_newer v.participant_id v.session_version) ps ≡ true
    → (q : Person) → o ≡ some q
    → same_session v q ≡ false
found-refused v ps o found newer q e =
    let place = found ∙ e in
    let (mine, active) = find_active_row v.participant_id ps q place in
    let later =
      find_active-all (is_newer v.participant_id v.session_version) v.participant_id ps q newer
        place in
    ground (
      arith,
      mine,
      active,
      later,
      eq_ℤ_iff q.id v.participant_id,
      eq_ℤ_iff q.session_version v.session_version,
    )

admit_outdated :
    (w : House) (now : Time) (v : Principal) (o : Option Person)
    → find_active v.participant_id w.people ≡ o
    → outdated w.people v.participant_id v.session_version ≡ true
    → admit_principal w now v ≡ err unauthorized
unfolding admit_principal check_session get_person known_person
admit_outdated w now v none found over = rw found (ground arith)
admit_outdated w now v (some q) found over =
    let refused = found-refused v w.people (some q) found (ground arith) q refl in
    rw found (ground (arith, refused))

update-outdates :
    (w : House) (id version : ℤ) (hash : Option String)
    → (update_hashed w id hash).1 ≡ ok tt
    → all (not_ahead id version) w.people ≡ true
    → outdated (update_hashed w id hash).0.people id version ≡ true
unfolding update_hashed
update-outdates w id version none h past = absurd (cc)
update-outdates w id version (some hash) h past =
    elim (Bool-cases (any (active_with id) w.people)) [
      | inl found ↦ rw found (
          ground
            (arith, renewed_any id hash w.people found, renewed_newer id version hash w.people))
      | inr missing ↦ absurd (let bad = rw missing at h in cc)
    ]

-- After a participant's PIN has been changed, a token that stands for the participant, in a session
-- that had begun by then, is refused through any calls and at any time; where new participants get
-- identifiers of their own.
pub pin_change_signs_out :
    (e : Env) (w : House) (id : ℤ) (pin : String) (token : List ℕ) (v : Principal) (later : Time)
    {u : House}
    → (update_participant_pin e.hashing w id pin).1 ≡ ok tt
    → parse e.encoding e.tokens token later ≡ ok v
    → v.participant_id ≡ id
    → all (not_ahead id v.session_version) w.people ≡ true
    → Calls e.hashing (update_participant_pin e.hashing w id pin).0 u
    → parse_token e u token later ≡ err unauthorized
unfolding update_participant_pin parse_token
pin_change_signs_out e w id pin token v later {u} done read mine begun past =
    let over =
      Calls-outdated e.hashing id v.session_version past
        (update-outdates w id v.session_version (e.hashing.generate pin) done begun) in
    let over' = ap (λ (j : ℤ). outdated u.people j v.session_version) mine ∙ over in
    rw read (admit_outdated u later v (find_active v.participant_id u.people) refl over')
