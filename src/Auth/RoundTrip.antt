-- ===== src/Auth/RoundTrip.antt =====
-- What `Parse` reads from a token that was issued (backend/internal/auth/token.go).
use family_quest.Base.{
  ℕ, suc, ◌&&◌, ◌<◌, ◌+◌, ◌≡◌, refl, ap, sym, ◌∙◌, Bool, true, false, not, ◌||◌, List, pos, le_ℤ,
  lt_ℤ, eq_ℤ, any, all, ltb, arith, format_int, parse_int, parse_int-format_int, two_63, ok, err,
  unauthorized, some, if◌then◌else◌,
}
use family_quest.Domain.Dates.{Time}
use family_quest.Domain.Principals.{validate_role}
use family_quest.Auth.Token.{
  Claims, Encoding, Tokens, Holder, header, unsigned_text, issue_claims, session_claims, issue,
  read_parts, read_signed, read_payload, read_claims, read_subject, parse, is_void,
  claims_principal, unix,
}
use family_quest.Auth.Split.{is_dot, split-token, bytes_equal_refl}

abbrev pub is_byte : ℕ → Bool
is_byte b = ltb b 256

-- What the packages document: base64 reads back what it wrote, and writes no dot; JSON and the
-- signature are bytes, and JSON reads back the claims that it wrote.
pub record IsFaithful (e : Encoding) (c : Claims) : Type 0 where
  pub decodes : (b : List ℕ) → all is_byte b ≡ true → e.decode (e.encode b) ≡ some b
  pub no_dot : (b : List ℕ) → any is_dot (e.encode b) ≡ false
  pub json_bytes : all is_byte (e.marshal c) ≡ true
  pub mac_bytes : (key text : List ℕ) → all is_byte (e.mac key text) ≡ true
  pub reads_back : e.unmarshal (e.marshal c) ≡ some c

-- Who has the secret reads the claims of a token.
pub parse-issue_claims :
    (e : Encoding) (t u : Tokens) (c : Claims) (later : Time)
    → IsFaithful e c
    → u.secret ≡ t.secret
    → parse e u (issue_claims e t c) later ≡ read_claims u later (some c)
unfolding parse issue_claims read_parts read_signed read_payload
parse-issue_claims e t u c later f same =
    let signature : List ℕ = e.mac t.secret (unsigned_text e c) in
    let parts =
      split-token (e.encode header) (e.encode (e.marshal c)) (e.encode signature) (f.no_dot header)
        (f.no_dot (e.marshal c)) (f.no_dot signature) in
    rw
      (
        parts,
        f.decodes signature (f.mac_bytes t.secret (unsigned_text e c)),
        same,
        bytes_equal_refl signature,
        f.decodes (e.marshal c) f.json_bytes,
        f.reads_back,
      )
      refl

read_subject-known :
    (c : Claims) (id : ℕ)
    → suc id < two_63
    → c.subject ≡ format_int (pos (suc id))
    → validate_role c.role ≡ ok tt
    → read_subject c (parse_int c.subject) ≡ ok (claims_principal c (pos (suc id)))
unfolding read_subject
read_subject-known c id small written role =
    let above : le_ℤ (pos (suc id)) (pos 0) ≡ false = ground arith in
    rw (written, parse_int-format_int (suc id) small, above, role) refl

read_claims-known :
    (u : Tokens) (c : Claims) (id : ℕ) (later : Time)
    → suc id < two_63
    → c.subject ≡ format_int (pos (suc id))
    → validate_role c.role ≡ ok tt
    → read_claims u later (some c)
      ≡ (if is_void u c later then err unauthorized else ok (claims_principal c (pos (suc id))))
unfolding read_claims
read_claims-known u c id later small written role =
    ap (λ r. if is_void u c later then err unauthorized else r)
      (read_subject-known c id small written role)

-- A token that was issued for a participant of a known role is read as that participant by who has
-- the secret, until it expires, and by no other family's service.
pub parse-issue :
    (e : Encoding) (t u : Tokens) (p : Holder) (id : ℕ) (now later : Time)
    → IsFaithful e (session_claims t p now)
    → u.secret ≡ t.secret
    → p.id ≡ pos (suc id)
    → suc id < two_63
    → validate_role p.role ≡ ok tt
    → parse e u (issue e t p now) later ≡ (
        if le_ℤ (unix (now + t.ttl)) (unix later)
          || (lt_ℤ (pos 0) u.family_id && not (eq_ℤ t.family_id u.family_id))
        then err unauthorized
        else ok (claims_principal (session_claims t p now) p.id))
unfolding issue
parse-issue e t u p id now later f same positive small role =
    parse-issue_claims e t u (session_claims t p now) later f same
    ∙ read_claims-known u (session_claims t p now) id later small (ap format_int positive) role
    ∙ ap
        (λ who.
          if is_void u (session_claims t p now) later
          then err unauthorized
          else ok (claims_principal (session_claims t p now) who))
        (sym positive)
