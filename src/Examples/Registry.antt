-- ===== src/Examples/Registry.antt =====
-- The theorem on revocations at concrete sessions (backend/internal/identity/sessions.go).
use family_quest.Base.{◌≡◌, refl, false, [], ◌∷◌, ◌<◌, length, String, pos, some, arith}
use family_quest.Identity.Sessions.{
  Subject, Session, Sessions, sweep, revoke, revoke_swept, get, get_found, session_of, matches,
}
use family_quest.Identity.Revocation.{idle, revoke-get}
use family_quest.Examples.Data.{noon}

abbrev person : String → String → Subject
person id session_id = record {
  issuer = "https://login";
  id = id;
  session_id = session_id;
  remember_days = pos 0;
}

abbrev signed : String → String → Session
signed id session_id = record {
  subject = person id session_id;
  scope = "";
  expires = 64_000_000_000_000_000_000;
}

abbrev registry : Sessions
registry = record {
  active = ("k1", signed "anna" "s1") ∷ ("k2", signed "boris" "s2") ∷ [];
  revoked = [];
}

boris_stays :
    (get (revoke registry (person "anna" "s1") noon) "k2" noon).1 ≡ some (signed "boris" "s2")
unfolding get get_found session_of revoke revoke_swept sweep
boris_stays = refl

room_left : (length (sweep registry noon).revoked) < 10000
unfolding sweep
room_left = omega arith

revoke-get_example : matches (person "anna" "s1") (person "boris" "s2") ≡ false
revoke-get_example =
    revoke-get registry (revoke registry (person "anna" "s1") noon) (person "anna" "s1") noon noon
      "k2" (signed "boris" "s2") room_left idle boris_stays
