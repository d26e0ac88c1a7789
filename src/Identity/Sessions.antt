-- ===== src/Identity/Sessions.antt =====
-- The registry of signed-in sessions (backend/internal/identity/sessions.go). A Go map is a list of
-- pairs in which no key is twice. The clock, the random identifier and whether the file could be
-- written are arguments; a revocation that cannot be written ends the process, and is left out.
use family_quest.Base.{
  ℕ, ◌+◌, Bool, not, ◌&&◌, ◌||◌, List, [], ◌∷◌, String, ℤ, pos, le_ℤ, lt_ℤ, pos_part, str_eq, any,
  length, ltb, leb, ◌&◌, Option, none, some, if◌then◌else◌,
}
use family_quest.Domain.Dates.{Time}

pub record Subject : Type 0 where
  pub issuer : String
  pub id : String
  pub session_id : String
  pub remember_days : ℤ

pub record Session : Type 0 where
  pub subject : Subject
  pub scope : String
  pub expires : Time

pub record Sessions : Type 0 where
  pub active : List (String × Session)
  pub revoked : List (String × Time)

abbrev pub keep {ℓ} : {A : Type ℓ} → (A → Bool) → List A → List A
keep test [] = []
keep test (x ∷ xs) = let rest = keep test xs in if test x then x ∷ rest else rest

abbrev pub has_key {ℓ} : {A : Type ℓ} → String → String × A → Bool
has_key k (j, v) = str_eq j k

abbrev pub other_key {ℓ} : {A : Type ℓ} → String → String × A → Bool
other_key k (j, v) = not (str_eq j k)

-- `delete(m, k)` and `m[k] = v`.
abbrev pub delete {ℓ} : {A : Type ℓ} → String → List (String × A) → List (String × A)
delete k m = keep (other_key k) m

abbrev pub put {ℓ} : {A : Type ℓ} → String → A → List (String × A) → List (String × A)
put k v m = (k, v) ∷ delete k m

unfoldable pub session_of : String → List (String × Session) → Option Session
session_of k [] = none
session_of k ((j, v) ∷ m) = if str_eq j k then some v else session_of k m

abbrev pub new_sessions : Sessions
new_sessions = record { active = []; revoked = [] }

abbrev pub is_live : Time → String × Session → Bool
is_live now (k, v) = ltb now v.expires

abbrev pub is_pending : Time → String × Time → Bool
is_pending now (k, t) = ltb now t

unfoldable pub sweep : Sessions → Time → Sessions
sweep s now = record {
  active = keep (is_live now) s.active;
  revoked = keep (is_pending now) s.revoked;
}

-- Sixty days, in nanoseconds.
abbrev pub sixty_days : ℕ
sixty_days = 5_184_000_000_000_000

abbrev pub sid_key : Subject → String
sid_key sub = "sid:" & sub.session_id

abbrev pub sub_key : Subject → String
sub_key sub = "sub:" & sub.id

abbrev pub unavailable : Sessions → Subject → ℤ → Bool
unavailable s sub ttl =
    le_ℤ ttl (pos 0)
    || lt_ℤ (pos sixty_days) ttl
    || str_eq sub.id ""
    || str_eq sub.session_id ""
    || leb 10000 (length s.active)
    || leb 10000 (length s.revoked)

-- The new session is dropped again where the file cannot be written.
unfoldable pub store_session :
    Sessions → Subject → String → ℤ → Time → String → Bool → Sessions × Option String
store_session s sub scope ttl now id written =
    let session : Session = record { subject = sub; scope = scope; expires = now + pos_part ttl } in
    if written
    then (record s { active = put id session s.active }, some id)
    else (record s { active = delete id s.active }, none)

unfoldable pub add_swept :
    Sessions → Subject → String → ℤ → Time → String → Bool → Sessions × Option String
add_swept s sub scope ttl now id written =
    if unavailable s sub ttl
    then (s, none)
    else if any (has_key (sid_key sub)) s.revoked
    then (s, none)
    else if any (has_key (sub_key sub)) s.revoked
    then (s, none)
    else store_session s sub scope ttl now id written

-- `AddFor`.
unfoldable pub add_for :
    Sessions → Subject → String → ℤ → Time → String → Bool → Sessions × Option String
add_for s sub scope ttl now id written = add_swept (sweep s now) sub scope ttl now id written

-- `Add`: for twelve hours.
unfoldable pub add : Sessions → Subject → String → Time → String → Bool → Sessions × Option String
add s sub scope now id written = add_for s sub scope (pos 43_200_000_000_000) now id written

unfoldable pub get_found : Sessions → String → Time → Option Session → Sessions × Option Session
get_found s id now none = (record s { active = delete id s.active }, none)
get_found s id now (some v) =
    if not (ltb now v.expires)
    then (record s { active = delete id s.active }, none)
    else (s, some v)

-- `Get`.
unfoldable pub get : Sessions → String → Time → Sessions × Option Session
get s id now = get_found s id now (session_of id s.active)

-- `Delete`.
unfoldable pub delete_session : Sessions → String → Sessions
delete_session s id = record s { active = delete id s.active }

-- The sessions that a revocation ends: by the session's identifier, or by the person's where there
-- is none.
abbrev pub matches : Subject → Subject → Bool
matches sub v =
    str_eq v.issuer sub.issuer
    && ((not (str_eq sub.session_id "") && str_eq v.session_id sub.session_id)
        || (str_eq sub.session_id "" && str_eq v.id sub.id))

abbrev pub unmatched : Subject → String × Session → Bool
unmatched sub (k, v) = not (matches sub v.subject)

abbrev pub revoked_key : Subject → String
revoked_key sub = if str_eq sub.session_id "" then sub_key sub else sid_key sub

unfoldable pub revoke_swept : Sessions → Subject → Time → Sessions
revoke_swept s sub now = if leb 10000 (length s.revoked) then record s { active = [] } else record {
  active = keep (unmatched sub) s.active;
  revoked = put (revoked_key sub) (now + sixty_days) s.revoked;
}

-- `Revoke`.
unfoldable pub revoke : Sessions → Subject → Time → Sessions
revoke s sub now = revoke_swept (sweep s now) sub now

-- `NewPersistentSessions`, of what the file holds.
unfoldable pub new_persistent_sessions : Option Sessions → Time → Sessions
new_persistent_sessions none now = sweep new_sessions now
new_persistent_sessions (some disk) now = sweep disk now
