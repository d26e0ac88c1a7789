-- ===== src/People/Closed.antt =====
-- Devices that are closed, by a revocation or by a new PIN (`UpdateParticipantPIN` of
-- backend/internal/store/store.go, `AuthenticateDevice` of devices.go).
use family_quest.Base.{
  ◌≡◌, refl, Bool, true, false, not, ◌&&◌, ◌||◌, List, [], ◌∷◌, ◌++◌, map, String, ℤ, lt_ℤ, eq_ℤ,
  eq_ℤ_iff, any, all, any-append_end, all-append_end, arith, Bool-cases, inl, inr, Option, none,
  some, if◌then◌else◌,
}
use family_quest.Domain.Dates.{Time}
use family_quest.People.Tables.{Person, Device, has_id, active_with}
use family_quest.People.Devices.{
  has_token, revoke_where, was_revoked, first_time, admits, touch, seen_until,
}

-- No active row with the identifier has this session version or an earlier one.
abbrev pub is_newer : ℤ → ℤ → Person → Bool
is_newer id version p = not (active_with id p) || lt_ℤ version p.session_version

abbrev pub outdated : List Person → ℤ → ℤ → Bool
outdated people id version = any (has_id id) people && all (is_newer id version) people

-- The device is revoked, or of a session that is over.
abbrev pub is_stale : List Person → Device → Bool
is_stale people d = was_revoked d.revoked_at || outdated people d.participant_id d.session_version

abbrev pub is_closed_row : String → List Person → Device → Bool
is_closed_row hash people d = not (has_token hash d) || is_stale people d

abbrev pub is_closed : String → List Person → List Device → Bool
is_closed hash people ds = all (is_closed_row hash people) ds

-- Rows that keep their identifiers, are not made active and whose versions do not go back.
abbrev pub Grows : (Person → Person) → Type 0
Grows f =
    (p : Person) (id version : ℤ)
    → (has_id id (f p) ≡ has_id id p)
      × (is_newer id version p ≡ true → is_newer id version (f p) ≡ true)

any-Grows :
    (f : Person → Person) (ps : List Person) (id version : ℤ)
    → Grows f
    → any (has_id id) (map f ps) ≡ any (has_id id) ps
any-Grows f [] id version g = refl
any-Grows f (p ∷ ps) id version g =
    let same = (g p id version).0 in ground (arith, same, any-Grows f ps id version g)

all-Grows :
    (f : Person → Person) (ps : List Person) (id version : ℤ)
    → Grows f
    → all (is_newer id version) ps ≡ true
    → all (is_newer id version) (map f ps) ≡ true
all-Grows f [] id version g h = refl
all-Grows f (p ∷ ps) id version g h =
    let one = (g p id version).1 (ground arith) in
    ground (arith, one, all-Grows f ps id version g (ground arith))

pub outdated-map :
    (f : Person → Person) (ps : List Person) (id version : ℤ)
    → Grows f
    → outdated ps id version ≡ true
    → outdated (map f ps) id version ≡ true
outdated-map f ps id version g h =
    ground (arith, any-Grows f ps id version g, all-Grows f ps id version g)

-- A row that is added belongs to somebody else.
apart :
    (ps : List Person) (id other : ℤ)
    → any (has_id id) ps ≡ true
    → any (has_id other) ps ≡ false
    → eq_ℤ other id ≡ false
apart ps id other here nowhere = elim (Bool-cases (eq_ℤ other id)) [
  | inl same ↦ absurd (let e : other ≡ id = (eq_ℤ_iff other id).0 same in cc)
  | inr differ ↦ differ
]

pub outdated-append_end :
    (ps : List Person) (p : Person) (id version : ℤ)
    → any (has_id p.id) ps ≡ false
    → outdated ps id version ≡ true
    → outdated (ps ++ p ∷ []) id version ≡ true
outdated-append_end ps p id version fresh h =
    let other = apart ps id p.id (ground arith) fresh in
    ground
      (arith, other, any-append_end (has_id id) ps p, all-append_end (is_newer id version) ps p)

-- The people change, and what was outdated stays so.
pub is_closed-people :
    (hash : String) (ps qs : List Person) (ds : List Device)
    → ((id version : ℤ) → outdated ps id version ≡ true → outdated qs id version ≡ true)
    → is_closed hash ps ds ≡ true
    → is_closed hash qs ds ≡ true
is_closed-people hash ps qs [] keep h = refl
is_closed-people hash ps qs (d ∷ ds) keep h =
    ground (arith, keep d.participant_id d.session_version, is_closed-people hash ps qs ds keep)

-- The devices change row by row.
is_closed-devices :
    (hash : String) (ps : List Person) (f : Device → Device) (ds : List Device)
    → ((d : Device) → is_closed_row hash ps d ≡ true → is_closed_row hash ps (f d) ≡ true)
    → is_closed hash ps ds ≡ true
    → is_closed hash ps (map f ds) ≡ true
is_closed-devices hash ps f [] keep h = refl
is_closed-devices hash ps f (d ∷ ds) keep h =
    ground (arith, keep d, is_closed-devices hash ps f ds keep)

first_time-revoked : (at : Option Time) (now : Time) → was_revoked (first_time at now) ≡ true
first_time-revoked none now = refl
first_time-revoked (some at) now = refl

revoked_row :
    (hash : String) (ps : List Person) (now : Time) (d : Device)
    → is_closed_row hash ps (record d { revoked_at = first_time d.revoked_at now }) ≡ true
revoked_row hash ps now d = ground (arith, first_time-revoked d.revoked_at now)

pub is_closed-revoke :
    (hash : String) (ps : List Person) (test : Device → Bool) (now : Time) (ds : List Device)
    → is_closed hash ps ds ≡ true
    → is_closed hash ps (revoke_where test now ds) ≡ true
unfolding revoke_where
is_closed-revoke hash ps test now ds h =
    is_closed-devices hash ps
      (λ d. if test d then record d { revoked_at = first_time d.revoked_at now } else d) ds
      (λ d k. elim (Bool-cases (test d)) [
        | inl hit ↦ rw hit (revoked_row hash ps now d)
        | inr miss ↦ rw miss k
      ])
      h

pub is_closed-touch :
    (hash token : String) (ps : List Person) (now expires : Time) (ds : List Device)
    → is_closed hash ps ds ≡ true
    → is_closed hash ps (touch ps token now expires ds) ≡ true
unfolding touch
is_closed-touch hash token ps now expires ds h =
    is_closed-devices hash ps (λ d. if admits ps token now d then seen_until now expires d else d)
      ds
      (λ d k. elim (Bool-cases (admits ps token now d)) [
        | inl hit ↦ rw hit k
        | inr miss ↦ rw miss k
      ])
      h
