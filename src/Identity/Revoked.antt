-- ===== src/Identity/Revoked.antt =====
-- A revocation in force, and each operation that keeps it (backend/internal/identity/sessions.go).
use family_quest.Base.{
  ◌+◌, ◌<◌, ◌≤◌, ◌≡◌, refl, true, false, ◌&&◌, Bool, List, [], ◌∷◌, String, ℤ, str_eq, eq_iff, any,
  all, length, leb, Option, none, some, arith, inl, inr, Bool-cases, ◌&◌, ltb,
}
use family_quest.Domain.Dates.{Time}
use family_quest.Identity.Sessions.{
  Subject, Session, Sessions, keep, has_key, other_key, delete, put, is_live, is_pending, sweep,
  sixty_days, unavailable, store_session, sid_key, sub_key, add_swept, get_found, matches,
  unmatched, revoked_key, revoke_swept,
}

module _ {ℓ} {A : Type ℓ} where
  all-keep : (p q : A → Bool) (xs : List A) → all p xs ≡ true → all p (keep q xs) ≡ true
  all-keep p q [] h = refl
  all-keep p q (x ∷ xs) h = ground (arith, all-keep p q xs)

  pub all-keep_self : (p : A → Bool) (xs : List A) → all p (keep p xs) ≡ true
  all-keep_self p [] = refl
  all-keep_self p (x ∷ xs) = ground (arith, all-keep_self p xs)

  any-keep :
      (p q : A → Bool) (xs : List A)
      → ((x : A) → p x ≡ true → q x ≡ true)
      → any p xs ≡ true
      → any p (keep q xs) ≡ true
  any-keep p q [] f h = h
  any-keep p q (x ∷ xs) f h = ground (arith, any-keep p q xs f, f x)

-- The revocation under a key stands until a time.
abbrev pub stands : String → Time → String × Time → Bool
stands key until (k, t) = str_eq k key && leb until t

abbrev pub is_revoked : String → Time → List (String × Time) → Bool
is_revoked key until m = any (stands key until) m

-- The revocation of a subject is in force until a time: it is recorded, and no session is left.
pub record IsRevoked (sub : Subject) (until : Time) (s : Sessions) : Type 0 where
  pub recorded : is_revoked (revoked_key sub) until s.revoked ≡ true
  pub gone : all (unmatched sub) s.active ≡ true

module _ (sub : Subject) (until : Time) where
  pub sweep-IsRevoked :
      (s : Sessions) (now : Time)
      → now < until
      → IsRevoked sub until s
      → IsRevoked sub until (sweep s now)
  unfolding sweep
  sweep-IsRevoked s now early r = record {
    recorded =
        any-keep (stands (revoked_key sub) until) (is_pending now) s.revoked
          (λ (k, t) h. ground arith) r.recorded;
    gone = all-keep (unmatched sub) (is_live now) s.active r.gone;
  }

  pub delete-IsRevoked :
      (s : Sessions) (id : String)
      → IsRevoked sub until s
      → IsRevoked sub until (record s { active = delete id s.active })
  delete-IsRevoked s id r = record {
    recorded = r.recorded;
    gone = all-keep (unmatched sub) (other_key id) s.active r.gone;
  }

stands_has_key :
    (key : String) (until : Time) (m : List (String × Time))
    → is_revoked key until m ≡ true
    → any (has_key key) m ≡ true
stands_has_key key until [] h = h
stands_has_key key until ((k, t) ∷ m) h = ground (arith, stands_has_key key until m)

-- A subject that a revocation matches meets its key.
unmatched_new :
    (sub v : Subject) (m : List (String × Time))
    → any (has_key (revoked_key sub)) m ≡ true
    → any (has_key (sid_key v)) m ≡ false
    → any (has_key (sub_key v)) m ≡ false
    → matches sub v ≡ false
unmatched_new sub v m held no_sid no_sub = elim (Bool-cases (matches sub v)) [
  | inr other ↦ other
  | inl same ↦ elim (Bool-cases (str_eq sub.session_id "")) [
    | inl person ↦
        let equal : v.id ≡ sub.id = ground (arith, eq_iff v.id sub.id) in
        let there : any (has_key ("sub:" & sub.id)) m ≡ true = ground (arith, held, person) in cc
    | inr single ↦
        let equal : v.session_id ≡ sub.session_id =
          ground (arith, eq_iff v.session_id sub.session_id) in
        let there : any (has_key ("sid:" & sub.session_id)) m ≡ true =
          ground (arith, held, single) in
        cc
  ]
]

put_recorded :
    (key k : String) (until t : Time) (m : List (String × Time))
    → until ≤ t
    → is_revoked key until m ≡ true
    → is_revoked key until (put k t m) ≡ true
put_recorded key k until t m le h = elim (Bool-cases (str_eq k key)) [
  | inl same ↦ ground arith
  | inr other ↦
      let kept : any (stands key until) (delete k m) ≡ true =
        any-keep (stands key until) (other_key k) m
          (λ (j, u) e. ground (arith, eq_iff j key, eq_iff j k, eq_iff k key)) h in
      ground arith
]

module _ (sub : Subject) (until : Time) where
  store_session-IsRevoked :
      (s : Sessions) (v : Subject) (scope : String) (ttl : ℤ) (now : Time) (id : String)
      (written : Bool)
      → any (has_key (sid_key v)) s.revoked ≡ false
      → any (has_key (sub_key v)) s.revoked ≡ false
      → IsRevoked sub until s
      → IsRevoked sub until (store_session s v scope ttl now id written).0
  unfolding store_session
  store_session-IsRevoked s v scope ttl now id false no_sid no_sub r =
      delete-IsRevoked sub until s id r
  store_session-IsRevoked s v scope ttl now id true no_sid no_sub r = record {
    recorded = r.recorded;
    gone = ground (
      arith,
      all-keep (unmatched sub) (other_key id) s.active r.gone,
      unmatched_new sub v s.revoked (stands_has_key (revoked_key sub) until s.revoked r.recorded)
          no_sid no_sub,
    );
  }

  pub add_swept-IsRevoked :
      (s : Sessions) (v : Subject) (scope : String) (ttl : ℤ) (now : Time) (id : String)
      (written : Bool)
      → IsRevoked sub until s
      → IsRevoked sub until (add_swept s v scope ttl now id written).0
  unfolding add_swept
  add_swept-IsRevoked s v scope ttl now id written r = elim (Bool-cases (unavailable s v ttl)) [
    | inl refused ↦ rw refused r
    | inr possible ↦ elim (Bool-cases (any (has_key (sid_key v)) s.revoked)) [
      | inl ended ↦ rw (possible, ended) r
      | inr no_sid ↦ elim (Bool-cases (any (has_key (sub_key v)) s.revoked)) [
        | inl ended ↦ rw (possible, no_sid, ended) r
        | inr no_sub ↦
            rw (possible, no_sid, no_sub)
              (store_session-IsRevoked s v scope ttl now id written no_sid no_sub r)
      ]
    ]
  ]

  pub get_found-IsRevoked :
      (s : Sessions) (id : String) (now : Time) (o : Option Session)
      → IsRevoked sub until s
      → IsRevoked sub until (get_found s id now o).0
  unfolding get_found
  get_found-IsRevoked s id now none r = delete-IsRevoked sub until s id r
  get_found-IsRevoked s id now (some v) r = elim (Bool-cases (ltb now v.expires)) [
    | inl live ↦ rw live r
    | inr over ↦ rw over (delete-IsRevoked sub until s id r)
  ]

  pub revoke_swept-IsRevoked :
      (s : Sessions) (v : Subject) (now : Time)
      → until ≤ now + sixty_days
      → IsRevoked sub until s
      → IsRevoked sub until (revoke_swept s v now)
  unfolding revoke_swept
  revoke_swept-IsRevoked s v now le r = elim (Bool-cases (leb 10000 (length s.revoked))) [
    | inl full ↦ rw full (record { recorded = r.recorded; gone = refl })
    | inr room ↦ rw room (record {
      recorded =
          put_recorded (revoked_key sub) (revoked_key v) until (now + sixty_days) s.revoked le
            r.recorded;
      gone = all-keep (unmatched sub) (unmatched v) s.active r.gone;
    })
  ]
