-- ===== src/Application/SignIn.antt =====
-- Signing in with a PIN, and the token that this gives (backend/internal/application/service.go over
-- backend/internal/auth/token.go and backend/internal/store/store.go).
use family_quest.Base.{
  ℕ, suc, ◌+◌, ◌<◌, ◌≡◌, refl, ap, subst, sym, ◌∙◌, Bool, true, false, not, ◌&&◌, ◌||◌, List, [],
  ◌∷◌, map, String, ℤ, pos, lt_ℤ, le_ℤ, eq_ℤ, eq_ℤ_iff, eq_ℤ_refl, eq_refl, str_eq, arith,
  Bool-cases, Result-cases, inl, inr, two_63, Result, ok, err, unauthorized, Option, none, some,
  if◌then◌else◌,
}
use family_quest.Domain.Dates.{Time}
use family_quest.Domain.Principals.{Principal, validate_role, validate_pin}
use family_quest.Auth.Token.{issue, parse, unix, session_claims, claims_principal}
use family_quest.Auth.RoundTrip.{IsFaithful, parse-issue}
use family_quest.People.Tables.{Person, House, Hashing, active_with}
use family_quest.People.Members.{
  find_active, verify_participant_pin, verify_found, upgrade, hash_one, is_legacy,
}
use family_quest.Application.Sessions.{
  Env, holder_of, authenticate, authenticate_valid, issue_verified, get_person, known_person,
  same_session, check_session, with_grant, admit_principal, parse_token,
}

pub find_active_row :
    (id : ℤ) (ps : List Person) (p : Person)
    → find_active id ps ≡ some p
    → (p.id ≡ id) × (p.active ≡ true)
unfolding find_active
find_active_row id [] p h = absurd (cc)
find_active_row id (q ∷ qs) p h = elim (Bool-cases (active_with id q)) [
  | inl hit ↦ (ground (arith, eq_ℤ_iff q.id id), ground arith)
  | inr miss ↦ find_active_row id qs p (rw miss at h)
]

-- The same participant, in the same session.
abbrev pub SameSession : Person → Person → Type 0
SameSession p q =
    (q.id ≡ p.id)
    × (q.role ≡ p.role)
    × (q.active ≡ p.active)
    × (q.session_version ≡ p.session_version)

hash_one-SameSession :
    (id : ℤ) (pin hash : String) (p : Person) → SameSession p (hash_one id pin hash p)
hash_one-SameSession id pin hash p = (ground arith, ground arith, ground arith, ground arith)

found_first :
    (id : ℤ) (q : Person) (qs : List Person) (p : Person)
    → active_with id q ≡ true
    → find_active id (q ∷ qs) ≡ some p
    → q ≡ p
unfolding find_active
found_first id q qs p hit h = let e = rw hit at h in cc

find_active-hash :
    (id : ℤ) (pin hash : String) (ps : List Person) (p : Person)
    → find_active id ps ≡ some p
    → find_active id (map (hash_one id pin hash) ps) ≡ some (hash_one id pin hash p)
unfolding find_active
find_active-hash id pin hash [] p h = absurd (cc)
find_active-hash id pin hash (q ∷ qs) p h =
    let (a, b, c, d) = hash_one-SameSession id pin hash q in
    elim (Bool-cases (active_with id q)) [
      | inl hit ↦
          let still : active_with id (hash_one id pin hash q) ≡ true = ground (arith, a, c) in
          let first : q ≡ p = found_first id q qs p hit h in rw (still, first) refl
      | inr miss ↦
          let still : active_with id (hash_one id pin hash q) ≡ false = ground (arith, a, c) in
          rw still (find_active-hash id pin hash qs p (rw miss at h))
    ]

-- What a PIN that is accepted leaves in the tables.
abbrev pub Verified : House → ℤ → House → Person → Type 0
Verified w id u p =
    (find_active id w.people ≡ some p)
    × (u.family_id ≡ w.family_id)
    × ((q : Person) × (find_active id u.people ≡ some q) × SameSession p q)

-- The two parts of what a transaction returns.
Verified-parts :
    (w v u : House) (id : ℤ) (p q : Person)
    → v ≡ u
    → ok p ≡ ok q
    → Verified w id v p
    → Verified w id u q
Verified-parts w v u id p q tables results h =
    let who : p ≡ q = cc in
    subst (λ x. Verified w id x q) tables (subst (λ x. Verified w id v x) who h)

upgrade-Verified :
    (w u : House) (id : ℤ) (pin : String) (p q : Person) (hash : Option String)
    → find_active id w.people ≡ some p
    → (upgrade w id pin p hash).0 ≡ u
    → (upgrade w id pin p hash).1 ≡ ok q
    → Verified w id u q
unfolding upgrade
upgrade-Verified w u id pin p q none found tables result = absurd (cc)
upgrade-Verified w u id pin p q (some hash) found tables result =
    Verified-parts w (record w { people = map (hash_one id pin hash) w.people }) u id p q tables
      result
      (
        found,
        refl,
        (
          hash_one id pin hash p,
          find_active-hash id pin hash w.people p found,
          hash_one-SameSession id pin hash p,
        ),
      )

verify-Verified :
    (h : Hashing) (w u : House) (id : ℤ) (pin : String) (o : Option Person) (q : Person)
    → find_active id w.people ≡ o
    → (verify_found h w id pin o).0 ≡ u
    → (verify_found h w id pin o).1 ≡ ok q
    → Verified w id u q
unfolding verify_found
verify-Verified h w u id pin none q found tables result = absurd (cc)
verify-Verified h w u id pin (some p) q found tables result =
    elim (Bool-cases (h.compare_hash p.pin_hash pin)) [
      | inl right ↦
          Verified-parts w w u id p q (rw right at tables) (rw right at result)
            (found, refl, (p, found, (refl, refl, refl, refl)))
      | inr wrong ↦ elim (Bool-cases (is_legacy p pin)) [
        | inl legacy ↦
            upgrade-Verified w u id pin p q (h.generate pin) found (rw (wrong, legacy) at tables)
              (rw (wrong, legacy) at result)
        | inr other ↦ absurd (let bad = rw (wrong, other) at result in cc)
      ]
    ]

abbrev person_or : Person → Result (Person × List ℕ) → Person
person_or p (ok (q, token)) = q
person_or p (err x) = p

abbrev token_or : List ℕ → Result (Person × List ℕ) → List ℕ
token_or text (ok (q, token)) = token
token_or text (err x) = text

issue_verified-ok :
    (e : Env) (now : Time) (x : House × Result Person) (u : House) (p : Person) (token : List ℕ)
    → issue_verified e now x ≡ (u, ok (p, token))
    → (x.0 ≡ u) × (x.1 ≡ ok p) × (token ≡ issue e.encoding e.tokens (holder_of p) now)
unfolding issue_verified
issue_verified-ok e now (v, err x) u p token h =
    absurd (let bad : err x ≡ ok (p, token) = ap (λ r. r.1) h in cc)
issue_verified-ok e now (v, ok q) u p token h =
    let tables : v ≡ u = ap (λ r. r.0) h in
    let given : ok (q, issue e.encoding e.tokens (holder_of q) now) ≡ ok (p, token) =
      ap (λ r. r.1) h in
    let who : q ≡ p = ap (person_or q) given in
    let text = ap (token_or token) given in
    (tables, ap ok who, sym text ∙ ap (λ r. issue e.encoding e.tokens (holder_of r) now) who)

-- A session that is known passes the checks of a request.
admit_known :
    (w : House) (p : Principal) (q : Person) (later : Time)
    → p.mcp_grant_id ≡ ""
    → p.confirmed_until ≡ pos 0
    → p.family_id ≡ w.family_id
    → find_active p.participant_id w.people ≡ some q
    → same_session p q ≡ true
    → admit_principal w later p ≡ ok p
unfolding admit_principal check_session get_person known_person with_grant
admit_known w p q later grant proof family found same =
    let mine : str_eq p.mcp_grant_id "" ≡ true = rw grant refl in
    let plain : eq_ℤ p.confirmed_until (pos 0) ≡ true = rw proof refl in
    let here : eq_ℤ p.family_id w.family_id ≡ true = (eq_ℤ_iff p.family_id w.family_id).1 family in
    rw (plain, here, found, same, mine) refl

authenticate-Verified :
    (e : Env) (w u : House) (id : ℤ) (pin : String) (p : Person) (token : List ℕ) (now : Time)
    → authenticate e w id pin now ≡ (u, ok (p, token))
    → Verified w id u p × (token ≡ issue e.encoding e.tokens (holder_of p) now)
unfolding authenticate verify_participant_pin authenticate_valid
authenticate-Verified e w u id pin p token now h = elim (Result-cases (validate_pin pin)) [
  | inl (good, valid) ↦
      let accepted = rw valid at h in
      let (tables, result, text) =
        issue_verified-ok e now (verify_found e.hashing w id pin (find_active id w.people)) u p
          token accepted in
      (verify-Verified e.hashing w u id pin (find_active id w.people) p refl tables result, text)
  | inr (x, bad) ↦
      absurd
        (let refused = rw bad at h in let no : err x ≡ ok (p, token) = ap (λ r. r.1) refused in cc)
]

-- The rest of `ParseToken` behind a token that is read.
admit_parsed :
    (e : Env) (u : House) (who : Principal) (q : Person) (token : List ℕ) (later : Time)
    (void : Bool)
    → parse e.encoding e.tokens token later ≡ (if void then err unauthorized else ok who)
    → admit_principal u later who ≡ ok who
    → parse_token e u token later ≡ (if void then err unauthorized else ok who)
unfolding parse_token
admit_parsed e u who q token later true read admitted = rw read refl
admit_parsed e u who q token later false read admitted = rw (read, admitted) refl

own_family : (f : ℤ) (late : Bool) → (late || (lt_ℤ (pos 0) f && not (eq_ℤ f f))) ≡ late
own_family f late = ground (arith, eq_ℤ_refl f)

module _ (e : Env) (w u : House) (id : ℤ) (n : ℕ) (p : Person) (now later : Time)
    (family : e.tokens.family_id ≡ w.family_id)
    (f : IsFaithful e.encoding (session_claims e.tokens (holder_of p) now))
    (positive : p.id ≡ pos (suc n)) (small : suc n < two_63) (role : validate_role p.role ≡ ok tt)
    (v : Verified w id u p) where
  abbrev signed_in : Principal
  signed_in = claims_principal (session_claims e.tokens (holder_of p) now) p.id

  signed_in-admitted : admit_principal u later signed_in ≡ ok signed_in
  signed_in-admitted =
      let (found, same_family, rest) = v in
      let (q, stored, session) = rest in
      let (a, b, c, d) = session in
      let (mine, active) = find_active_row id w.people p found in
      let place : find_active p.id u.people ≡ some q =
        ap (λ i. find_active i u.people) mine ∙ stored in
      let same : same_session signed_in q ≡ true =
        ground (arith, active, b, c, d, eq_refl p.role, eq_ℤ_refl p.session_version) in
      admit_known u signed_in q later refl refl (family ∙ sym same_family) place same

  verified-parse_token :
      parse_token e u (issue e.encoding e.tokens (holder_of p) now) later
      ≡ (if le_ℤ (unix (now + e.tokens.ttl)) (unix later) then err unauthorized else ok signed_in)
  verified-parse_token =
      let late : Bool = le_ℤ (unix (now + e.tokens.ttl)) (unix later) in
      let read =
        parse-issue e.encoding e.tokens e.tokens (holder_of p) n now later f refl positive small
          role in
      let here : parse e.encoding e.tokens (issue e.encoding e.tokens (holder_of p) now) later
          ≡ (if late then err unauthorized else ok signed_in) =
        read
        ∙ ap (λ b. if b then err unauthorized else ok signed_in)
            (own_family e.tokens.family_id late) in
      admit_parsed e u signed_in p (issue e.encoding e.tokens (holder_of p) now) later late here
        signed_in-admitted

-- Whoever signs in with a PIN is recognised by the token that this gives, as the same participant
-- with the same role and session, until the token expires, and is refused from then on; where the
-- encodings read back what they wrote, the service's tokens are its family's, the participant's
-- identifier is a positive 64-bit number and the role is known.
pub authenticate-parse_token :
    (e : Env) (w u : House) (id : ℤ) (n : ℕ) (pin : String) (p : Person) (token : List ℕ)
    (now later : Time)
    → e.tokens.family_id ≡ w.family_id
    → IsFaithful e.encoding (session_claims e.tokens (holder_of p) now)
    → p.id ≡ pos (suc n)
    → suc n < two_63
    → validate_role p.role ≡ ok tt
    → authenticate e w id pin now ≡ (u, ok (p, token))
    → parse_token e u token later ≡ (
        if le_ℤ (unix (now + e.tokens.ttl)) (unix later)
        then err unauthorized
        else ok (claims_principal (session_claims e.tokens (holder_of p) now) p.id))
authenticate-parse_token e w u id n pin p token now later family f positive small role h =
    let (v, text) = authenticate-Verified e w u id pin p token now h in
    ap (λ t. parse_token e u t later) text
    ∙ verified-parse_token e w u id n p now later family f positive small role v
