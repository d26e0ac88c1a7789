-- ===== src/Tasks/Claims.antt =====
-- Who may deliver an event, and when (`ClaimNotification` of backend/internal/store/notifications.go).
use family_quest.Base.{
  ℕ, ◌+◌, ◌<◌, ◌≡◌, refl, ap, subst, sym, ◌∙◌, ◌≢◌, Bool, true, false, not, ◌&&◌, ◌||◌, List, map,
  String, Option, none, some, str_eq, eq_iff, eq_refl, arith, Option-cases, inl, inr, if◌then◌else◌,
  get_elem?, get_elem?-map, get_elem?-map-some, ltb, ◌==◌,
}
use family_quest.Domain.Dates.{Time}
use family_quest.Tasks.Tables.{Work, OutboxRow, pending_row}
use family_quest.Tasks.Outbox.{
  Delivery, candidate, claim_row, claim_notification, lease_rows, leased, sixty_seconds,
  is_claimable, lease_over, holds,
}
use family_quest.Tasks.Steps.{Call, settle, RowStep, stays, is_cancelled, is_leased, is_settled}
use family_quest.Tasks.Queue.{IsKeyed, keyed_same, candidate-Stands}
use family_quest.Tasks.Calls.{Reach}
use family_quest.Tasks.Events.{Reach-row, Reach-IsKeyed}

IsKeyed-map :
    (f : OutboxRow → OutboxRow) (rows : List OutboxRow)
    → ((r : OutboxRow) → (f r).id ≡ r.id)
    → IsKeyed rows
    → IsKeyed (map f rows)
IsKeyed-map f rows ids key i j a b ha hb e =
    let (x, hx, fx) = get_elem?-map-some f rows i a ha in
    let (y, hy, fy) = get_elem?-map-some f rows j b hb in
    let same : x.id ≡ y.id =
      sym (ids x)
      ∙ ap (λ (r : OutboxRow). r.id) fx
      ∙ e
      ∙ sym (ap (λ (r : OutboxRow). r.id) fy)
      ∙ ids y in
    key i j x y hx hy same

pub claim-some :
    (w : Work) (token : String) (now : Time) (d : Delivery)
    → (claim_notification w token now).1 ≡ some d
    → (c : OutboxRow) × (candidate now w.outbox ≡ some c)
      × (d.id ≡ c.id)
      × (d.recipient ≡ c.recipient)
      × ((claim_notification w token now).0.outbox ≡ lease_rows c.id token now w.outbox)
unfolding claim_notification claim_row
claim-some w token now d h = elim (Option-cases (candidate now w.outbox)) [
  | inl e ↦ absurd (let gone = rw e at h in cc)
  | inr (c, e) ↦ let given = rw e at h in (c, e, ground arith, ground arith, rw e refl)
]

-- The call is no settlement with the token.
abbrev pub settles_under : String → Call → Bool
settles_under token (settle v) = str_eq v.lease token
settles_under token _ = false

-- The calls that come before the end of a lease, and that do not use its token.
abbrev pub within : String → Time → Time → Call → Bool
within token until now c = ltb now until && not (settles_under token c)

abbrev under : Option (String × Time) → String → Time → Bool
under none token until = false
under (some (t, end_at)) token until = str_eq t token && (end_at == until)

-- The event with this identifier is done, or stands under the lease.
abbrev is_shut : String → String → Time → OutboxRow → Bool
is_shut id token until r = str_eq r.id id && (not (pending_row r) || under r.lease token until)

under_running :
    (l : Option (String × Time)) (token : String) (until now : Time)
    → under l token until ≡ true
    → ltb now until ≡ true
    → lease_over l now ≡ false
under_running none token until now h run = cc
under_running (some (t, end_at)) token until now h run = ground arith

under-holds :
    (l : Option (String × Time)) (token other : String) (until now : Time)
    → under l token until ≡ true
    → holds l other now ≡ true
    → str_eq other token ≡ true
under-holds none token other until now h run = cc
under-holds (some (t, end_at)) token other until now h run =
    ground (arith, eq_iff t token, eq_iff t other, eq_iff other token)

keeps_shut :
    (id token : String) (until now : Time) (c : Call) (r s : OutboxRow)
    → within token until now c ≡ true
    → RowStep now c r s
    → is_shut id token until r ≡ true
    → is_shut id token until s ≡ true
keeps_shut id token until now c r s ok (stays e) h = rw e h
keeps_shut id token until now c r s ok (is_cancelled code p e) h = rw e (ground arith)
keeps_shut id token until now c r s ok (is_leased new by p e) h =
    let kept : under r.lease token until ≡ true = ground arith in
    let over = under_running r.lease token until now kept (ground arith) in absurd (ground arith)
keeps_shut id token until now c r s ok (is_settled v by p e) h = absurd (
    let kept : under r.lease token until ≡ true = ground arith in
    let mine = under-holds r.lease token v.lease until now kept (ground arith) in
    let free : within token until now (settle v) ≡ true =
      subst (λ x. within token until now x ≡ true) by ok in
    ground arith)

-- The row that a claim returns, after the claim.
claim-row :
    (w : Work) (token : String) (now : Time) (d : Delivery)
    → (claim_notification w token now).1 ≡ some d
    → (i : ℕ) × (c : OutboxRow) × (get_elem? (claim_notification w token now).0.outbox i
        ≡ some (leased token now c))
      × (c.id ≡ d.id)
unfolding lease_rows
claim-row w token now d h =
    let (c, found, ids, who, rows) = claim-some w token now d h in
    let (i, place, fact) = candidate-Stands now w.outbox c found in
    let one : OutboxRow → OutboxRow = λ r. if str_eq r.id c.id then leased token now r else r in
    let mine : one c ≡ leased token now c = rw (eq_refl c.id) refl in
    (
      i,
      c,
      ap (λ l. get_elem? l i) rows ∙ get_elem?-map one w.outbox i c place ∙ ap some mine,
      sym ids,
    )

claim-IsKeyed :
    (w : Work) (token : String) (now : Time) (d : Delivery)
    → (claim_notification w token now).1 ≡ some d
    → IsKeyed w.outbox
    → IsKeyed (claim_notification w token now).0.outbox
unfolding lease_rows
claim-IsKeyed w token now d h key =
    let (c, found, ids, who, rows) = claim-some w token now d h in
    subst IsKeyed (sym rows) (
      IsKeyed-map (λ r. if str_eq r.id c.id then leased token now r else r) w.outbox
        (λ r. ground arith) key)

-- An event that is shut is claimed by nobody else.
shut_unclaimed :
    (u : Work) (i : ℕ) (s : OutboxRow) (id token other : String) (until later : Time) (e : Delivery)
    → IsKeyed u.outbox
    → get_elem? u.outbox i ≡ some s
    → is_shut id token until s ≡ true
    → later < until
    → (claim_notification u other later).1 ≡ some e
    → e.id ≢ id
shut_unclaimed u i s id token other until later e key place h soon got same =
    let (c, found, ids, who, rows) = claim-some u other later e got in
    let (j, there, fact) = candidate-Stands later u.outbox c found in
    let mine : s.id ≡ c.id = ground (arith, eq_iff s.id id) in
    let one : s ≡ c = keyed_same u.outbox i j s c key place there mine in
    let open_row : is_claimable later s ≡ true = rw one fact in
    let kept : under s.lease token until ≡ true = ground arith in
    let over = under_running s.lease token until later kept (ground arith) in ground arith

-- From a claim on, and while calls come before the end of its sixty seconds and none of them
-- settles with its token, no other claim returns the same event; where the identifiers of the
-- outbox are different.
pub lease_exclusive :
    (w : Work) (token other : String) (now later : Time) (d e : Delivery) {u : Work}
    → IsKeyed w.outbox
    → (claim_notification w token now).1 ≡ some d
    → Reach (within token (now + sixty_seconds)) (claim_notification w token now).0 u
    → later < now + sixty_seconds
    → (claim_notification u other later).1 ≡ some e
    → e.id ≢ d.id
lease_exclusive w token other now later d e {u} key got run soon again =
    let until : Time = now + sixty_seconds in
    let (i, c, place, ids) = claim-row w token now d got in
    let before = claim-IsKeyed w token now d got key in
    let shut : is_shut d.id token until (leased token now c) ≡ true =
      ground (arith, eq_iff c.id d.id, eq_refl token) in
    let (s, after, fact) =
      Reach-row (within token until) (is_shut d.id token until) (keeps_shut d.id token until) i
        (leased token now c) before run place shut in
    shut_unclaimed u i s d.id token other until later e (Reach-IsKeyed run before) after fact soon
      again
