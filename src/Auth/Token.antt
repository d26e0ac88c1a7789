-- ===== src/Auth/Token.antt =====
-- Tokens of a session (backend/internal/auth/token.go). Texts are lists of bytes. The encodings and
-- the signature are those of Go's standard library, and parameters of the model.
use family_quest.Base.{
  ℕ, ◌+◌, ◌/◌, Bool, true, false, not, ◌&&◌, ◌||◌, List, [], ◌∷◌, ◌++◌, String, ℤ, pos, sub_ℕ, lt_ℤ,
  le_ℤ, eq_ℤ, codes, format_int, parse_int, ltb, ◌==◌, length, Result, ok, err, unauthorized,
  Option, none, some, if◌then◌else◌,
}
use family_quest.Domain.Dates.{Time}
use family_quest.Domain.Principals.{Principal, validate_role}
use family_quest.Application.Access.{is_err}

pub record Claims : Type 0 where
  pub mcp_grant_id : String
  pub family_id : ℤ
  pub device_id : String
  pub confirmed_until : ℤ
  pub version : ℤ
  pub subject : String
  pub role : String
  pub expires : ℤ

-- What the tokens use of the packages base64, json and hmac.
pub record Encoding : Type 0 where
  pub encode : List ℕ → List ℕ
  pub decode : List ℕ → Option (List ℕ)
  pub marshal : Claims → List ℕ
  pub unmarshal : List ℕ → Option Claims
  pub mac : List ℕ → List ℕ → List ℕ

pub record Tokens : Type 0 where
  pub family_id : ℤ
  pub secret : List ℕ
  pub ttl : ℕ

-- `New`; the second text of an error is left out.
unfoldable pub new_tokens : List ℕ → ℤ → Option Tokens
new_tokens secret (pos ttl) =
    if ltb (length secret) 32 || ttl == 0
    then none
    else some (record { family_id = pos 0; secret = secret; ttl = ttl })
new_tokens secret ttl = none

-- `ForFamily`.
abbrev pub for_family : ℤ → Tokens → Tokens
for_family id t = record t { family_id = id }

-- `Unix`: the seconds since 1970.
unfoldable pub unix : Time → ℤ
unix now = sub_ℕ (now / 1_000_000_000) 62_135_596_800

abbrev pub dot : ℕ
dot = 46

abbrev pub header : List ℕ
header = codes "{\"alg\":\"HS256\",\"typ\":\"JWT\"}"

abbrev pub unsigned_text : Encoding → Claims → List ℕ
unsigned_text e c = e.encode header ++ dot ∷ e.encode (e.marshal c)

-- `issue`.
unfoldable pub issue_claims : Encoding → Tokens → Claims → List ℕ
issue_claims e t c = unsigned_text e c ++ dot ∷ e.encode (e.mac t.secret (unsigned_text e c))

-- What of a participant goes into a token.
pub record Holder : Type 0 where
  pub id : ℤ
  pub role : String
  pub session_version : ℤ

abbrev pub session_claims : Tokens → Holder → Time → Claims
session_claims t p now = record {
  mcp_grant_id = "";
  family_id = t.family_id;
  device_id = "";
  confirmed_until = pos 0;
  version = p.session_version;
  subject = format_int p.id;
  role = p.role;
  expires = unix (now + t.ttl);
}

-- `Issue`.
unfoldable pub issue : Encoding → Tokens → Holder → Time → List ℕ
issue e t p now = issue_claims e t (session_claims t p now)

abbrev pub five_minutes : ℕ
five_minutes = 300_000_000_000

abbrev pub confirmation_claims : Tokens → Principal → Time → Claims
confirmation_claims t p now = record {
  mcp_grant_id = "";
  family_id = t.family_id;
  device_id = p.device_id;
  confirmed_until = unix (now + five_minutes);
  version = p.session_version;
  subject = format_int p.participant_id;
  role = p.role;
  expires = unix (now + five_minutes);
}

-- `IssueConfirmation`.
unfoldable pub issue_confirmation : Encoding → Tokens → Principal → Time → List ℕ
issue_confirmation e t p now = issue_claims e t (confirmation_claims t p now)

abbrev pub grant_claims : Tokens → Holder → String → Time → Claims
grant_claims t p id expires = record {
  mcp_grant_id = id;
  family_id = t.family_id;
  device_id = "";
  confirmed_until = pos 0;
  version = p.session_version;
  subject = format_int p.id;
  role = p.role;
  expires = unix expires;
}

-- `IssueMCP`.
unfoldable pub issue_mcp : Encoding → Tokens → Holder → String → Time → List ℕ
issue_mcp e t p id expires = issue_claims e t (grant_claims t p id expires)

abbrev pub prepend_byte : ℕ → List (List ℕ) → List (List ℕ)
prepend_byte c [] = (c ∷ []) ∷ []
prepend_byte c (part ∷ parts) = (c ∷ part) ∷ parts

-- `strings.Split(token, ".")`.
unfoldable pub split : List ℕ → List (List ℕ)
split [] = [] ∷ []
split (c ∷ cs) = let rest = split cs in if c == dot then [] ∷ rest else prepend_byte c rest

-- `hmac.Equal`.
unfoldable pub bytes_equal : List ℕ → List ℕ → Bool
bytes_equal [] [] = true
bytes_equal [] (y ∷ ys) = false
bytes_equal (x ∷ xs) [] = false
bytes_equal (x ∷ xs) (y ∷ ys) = x == y && bytes_equal xs ys

abbrev pub claims_principal : Claims → ℤ → Principal
claims_principal c id = record {
  mcp_grant_id = c.mcp_grant_id;
  mcp_read_only = false;
  family_id = c.family_id;
  device_id = c.device_id;
  confirmed_until = c.confirmed_until;
  session_version = c.version;
  participant_id = id;
  role = c.role;
}

unfoldable pub read_subject : Claims → Option ℤ → Result Principal
read_subject c none = err unauthorized
read_subject c (some id) =
    if le_ℤ id (pos 0) || is_err (validate_role c.role)
    then err unauthorized
    else ok (claims_principal c id)

-- `c.Expires <= t.now().Unix() || (t.familyID > 0 && c.FamilyID != t.familyID)`.
abbrev pub is_void : Tokens → Claims → Time → Bool
is_void t c now =
    le_ℤ c.expires (unix now) || (lt_ℤ (pos 0) t.family_id && not (eq_ℤ c.family_id t.family_id))

unfoldable pub read_claims : Tokens → Time → Option Claims → Result Principal
read_claims t now none = err unauthorized
read_claims t now (some c) =
    if is_void t c now then err unauthorized else read_subject c (parse_int c.subject)

unfoldable pub read_payload : Encoding → Tokens → Time → Option (List ℕ) → Result Principal
read_payload e t now none = err unauthorized
read_payload e t now (some b) = read_claims t now (e.unmarshal b)

unfoldable pub read_signed :
    Encoding → Tokens → Time → List ℕ → List ℕ → Option (List ℕ) → Result Principal
read_signed e t now head payload none = err unauthorized
read_signed e t now head payload (some sig) =
    if not (bytes_equal sig (e.mac t.secret (head ++ dot ∷ payload)))
    then err unauthorized
    else read_payload e t now (e.decode payload)

unfoldable pub read_parts : Encoding → Tokens → Time → List (List ℕ) → Result Principal
read_parts e t now (head ∷ payload ∷ sig ∷ []) = read_signed e t now head payload (e.decode sig)
read_parts e t now _ = err unauthorized

-- `Parse`.
unfoldable pub parse : Encoding → Tokens → List ℕ → Time → Result Principal
parse e t token now = read_parts e t now (split token)
