-- ===== src/Identity/Revocation.antt =====
-- What a revocation ensures (backend/internal/identity/sessions.go).
use family_quest.Base.{
  ◌+◌, ◌<◌, ◌≤◌, ◌≡◌, true, false, Bool, List, [], ◌∷◌, String, ℤ, eq_refl, all, length, leb, some,
  arith,
}
use family_quest.Domain.Dates.{Time}
use family_quest.Identity.Sessions.{
  Subject, Session, Sessions, session_of, sweep, sixty_days, add_for, get_found, get,
  delete_session, matches, unmatched, revoked_key, revoke_swept, revoke, new_persistent_sessions,
}
use family_quest.Identity.Revoked.{
  IsRevoked, all-keep_self, sweep-IsRevoked, delete-IsRevoked, get_found-IsRevoked,
  add_swept-IsRevoked, revoke_swept-IsRevoked,
}

-- The service at work: any operations from a time on, and within sixty days of it, also restarts
-- that read back what was written.
pub data Runs (since : Time) (s : Sessions) : Sessions → Type 0 where
  idle : Runs since s s
  signed_in :
      {s' : Sessions}
      → Runs since s s'
      → (v : Subject) (scope : String) (ttl : ℤ) (now : Time) (id : String) (written : Bool)
      → now < since + sixty_days
      → Runs since s (add_for s' v scope ttl now id written).0
  looked_up :
      {s' : Sessions}
      → Runs since s s'
      → (id : String) (now : Time) → Runs since s (get s' id now).0
  signed_out :
      {s' : Sessions} → Runs since s s' → (id : String) → Runs since s (delete_session s' id)
  ended :
      {s' : Sessions}
      → Runs since s s'
      → (v : Subject) (now : Time) → since ≤ now
      → now < since + sixty_days
      → Runs since s (revoke s' v now)
  restarted :
      {s' : Sessions}
      → Runs since s s'
      → (now : Time) → now < since + sixty_days
      → Runs since s (new_persistent_sessions (some s') now)

Runs-IsRevoked :
    {since : Time} {s s' : Sessions} (sub : Subject)
    → Runs since s s'
    → IsRevoked sub (since + sixty_days) s
    → IsRevoked sub (since + sixty_days) s'
unfolding add_for get delete_session revoke new_persistent_sessions
Runs-IsRevoked sub idle r = r
Runs-IsRevoked {since} sub (signed_in {s'} run v scope ttl now id written early) r =
    let until = since + sixty_days in
    add_swept-IsRevoked sub until (sweep s' now) v scope ttl now id written
      (sweep-IsRevoked sub until s' now early (Runs-IsRevoked sub run r))
Runs-IsRevoked {since} sub (looked_up {s'} run id now) r =
    get_found-IsRevoked sub (since + sixty_days) s' id now (session_of id s'.active)
      (Runs-IsRevoked sub run r)
Runs-IsRevoked {since} sub (signed_out {s'} run id) r =
    delete-IsRevoked sub (since + sixty_days) s' id (Runs-IsRevoked sub run r)
Runs-IsRevoked {since} sub (ended {s'} run v now late early) r =
    let until = since + sixty_days in
    revoke_swept-IsRevoked sub until (sweep s' now) v now (omega arith)
      (sweep-IsRevoked sub until s' now early (Runs-IsRevoked sub run r))
Runs-IsRevoked {since} sub (restarted {s'} run now early) r =
    sweep-IsRevoked sub (since + sixty_days) s' now early (Runs-IsRevoked sub run r)

revoke-IsRevoked :
    (s : Sessions) (sub : Subject) (now : Time)
    → length (sweep s now).revoked < 10000
    → IsRevoked sub (now + sixty_days) (revoke s sub now)
unfolding revoke revoke_swept
revoke-IsRevoked s sub now room =
    let open_list : leb 10000 (length (sweep s now).revoked) ≡ false = ground arith in
    rw open_list (record {
      recorded = ground (arith, eq_refl (revoked_key sub));
      gone = all-keep_self (unmatched sub) (sweep s now).active;
    })

session_of-unmatched :
    (sub : Subject) (id : String) (m : List (String × Session)) (v : Session)
    → all (unmatched sub) m ≡ true
    → session_of id m ≡ some v
    → matches sub v.subject ≡ false
unfolding session_of
session_of-unmatched sub id [] v h e = ground arith
session_of-unmatched sub id ((k, w) ∷ m) v h e = ground (arith, session_of-unmatched sub id m v)

get-some :
    (s : Sessions) (id : String) (now : Time) (v : Session)
    → (get s id now).1 ≡ some v
    → session_of id s.active ≡ some v
unfolding get get_found
get-some s id now v h = ground arith

-- After a person or a session is revoked, with room for the revocation, no session that it matches
-- is ever found: whatever is signed in, looked up, signed out or revoked in between, and also after
-- restarts, for sixty days.
pub revoke-get :
    (s s' : Sessions) (sub : Subject) (now later : Time) (id : String) (v : Session)
    → length (sweep s now).revoked < 10000
    → Runs now (revoke s sub now) s'
    → (get s' id later).1 ≡ some v
    → matches sub v.subject ≡ false
revoke-get s s' sub now later id v room run found =
    session_of-unmatched sub id s'.active v
      (Runs-IsRevoked sub run (revoke-IsRevoked s sub now room)).gone (get-some s' id later v found)
