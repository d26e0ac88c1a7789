-- ===== src/People/Parents.antt =====
-- The parents and the number of children of a family (`CreateParticipant`,
-- `DeleteParticipant`, `UpdateParticipantPIN` and `VerifyParticipantPIN` of
-- backend/internal/store/store.go).
use family_quest.Base.{
  ◌+◌, ◌<◌, ◌≤◌, ◌≡◌, refl, Bool, false, not, ◌&&◌, ◌||◌, List, [], ◌∷◌, ◌++◌, map, String, ℤ, pos,
  ◌≤ℤ◌, lt_ℤ, le_ℤ, str_eq, any, arith, Bool-cases, inl, inr, Result, ok, err, Option, none, some,
  if◌then◌else◌,
}
use family_quest.Domain.Dates.{Time}
use family_quest.Domain.Principals.{role_child, validate_pin}
use family_quest.Application.Access.{is_open}
use family_quest.People.Tables.{
  Person, House, Hashing, has_id, active_with, is_active_parent, is_active_child,
}
use family_quest.People.Members.{
  count_if, create_participant, create_valid, create_hashed, insert_person, new_person,
  role_or_child, delete_participant, is_last_parent, parent_with, retire, is_owner,
  update_participant_pin, update_hashed, renew_pin, with_pin, verify_participant_pin, verify_found,
  upgrade, hash_one, find_active, has_name, is_legacy,
}

count_if-append_end :
    (test : Person → Bool) (ps : List Person) (p : Person)
    → count_if test (ps ++ p ∷ []) ≡ count_if test ps + (if test p then 1 else 0)
unfolding count_if
count_if-append_end test [] p = ground arith
count_if-append_end test (q ∷ qs) p = ground (arith, count_if-append_end test qs p)

-- Rows that pass the test exactly as before.
count_if-map :
    (test : Person → Bool) (f : Person → Person) (ps : List Person)
    → ((p : Person) → test (f p) ≡ test p)
    → count_if test (map f ps) ≡ count_if test ps
unfolding count_if
count_if-map test f [] same = refl
count_if-map test f (p ∷ ps) same = ground (arith, same p, count_if-map test f ps same)

count_if-retire :
    (id : ℤ) (ps : List Person)
    → count_if is_active_parent (retire id ps) + count_if (parent_with id) ps
      ≡ count_if is_active_parent ps
unfolding count_if retire
count_if-retire id [] = refl
count_if-retire id (p ∷ ps) = ground (arith, count_if-retire id ps)

children-retire :
    (id : ℤ) (ps : List Person)
    → count_if is_active_child (retire id ps) ≤ count_if is_active_child ps
unfolding count_if retire
children-retire id [] = omega arith
children-retire id (p ∷ ps) = ground (arith, children-retire id ps)

parents_with_id :
    (id : ℤ) (ps : List Person) → count_if (parent_with id) ps ≤ count_if (has_id id) ps
unfolding count_if
parents_with_id id [] = omega arith
parents_with_id id (p ∷ ps) = ground (arith, parents_with_id id ps)

count_if-any :
    (test : Person → Bool) (ps : List Person) → any test ps ≡ false → count_if test ps ≡ 0
unfolding count_if
count_if-any test [] h = refl
count_if-any test (p ∷ ps) h = ground (arith, count_if-any test ps)

-- There is an active parent, and no more active children than the limit.
pub record IsManned (w : House) : Type 0 where
  pub parent : 0 < count_if is_active_parent w.people
  pub children : pos (count_if is_active_child w.people) ≤ℤ w.child_limit

added-IsManned :
    (w : House) (id : ℤ) (name role hash : String)
    → (str_eq role role_child && le_ℤ w.child_limit (pos (count_if is_active_child w.people)))
      ≡ false
    → IsManned w
    → IsManned (record w { people = w.people ++ new_person id name role hash ∷ [] })
added-IsManned w id name role hash room m =
    let who = new_person id name role hash in
    record {
      parent = ground (arith, m.parent, count_if-append_end is_active_parent w.people who);
      children = ground (arith, room, m.children, count_if-append_end is_active_child w.people who);
    }

insert-IsManned :
    (w : House) (id : ℤ) (name role hash : String) (now : Time)
    → IsManned w
    → IsManned (insert_person w id name role hash now).0
unfolding insert_person
insert-IsManned w id name role hash now m =
    elim (Bool-cases (lt_ℤ (pos 0) w.family_id && not (is_open w.access_until now))) [
      | inl closed ↦ rw closed m
      | inr allowed ↦
          elim (Bool-cases (
            str_eq role role_child
            && le_ℤ w.child_limit (pos (count_if is_active_child w.people)))) [
              | inl full ↦ rw (allowed, full) m
              | inr room ↦ elim (Bool-cases (any (has_name name) w.people)) [
                | inl taken ↦ rw (allowed, room, taken) m
                | inr free ↦ rw (allowed, room, free) (added-IsManned w id name role hash room m)
              ]
            ]
    ]

retired-IsManned :
    (w u : House) (id : ℤ)
    → u.people ≡ retire id w.people
    → u.child_limit ≡ w.child_limit
    → count_if (has_id id) w.people ≤ 1
    → is_last_parent w.people id ≡ false
    → IsManned w
    → IsManned u
retired-IsManned w u id left limit unique stays m = record {
  parent = rw left (
      ground (
        arith,
        stays,
        unique,
        m.parent,
        count_if-retire id w.people,
        parents_with_id id w.people,
        count_if-any (parent_with id) w.people,
      ));
  children = rw (left, limit) (ground (arith, m.children, children-retire id w.people));
}

delete-IsManned :
    (w : House) (id : ℤ)
    → count_if (has_id id) w.people ≤ 1
    → IsManned w
    → IsManned (delete_participant w id).0
unfolding delete_participant
delete-IsManned w id unique m =
    elim (Bool-cases (is_owner w.owner id || is_last_parent w.people id)) [
      | inl refused ↦ rw refused m
      | inr others ↦ elim (Bool-cases (any (has_id id) w.people)) [
        | inl found ↦
            rw (others, found) (retired-IsManned w _ id refl refl unique (ground (arith, others)) m)
        | inr missing ↦ rw (others, missing) m
      ]
    ]

-- Rows in which neither roles nor the marks of activity change.
same-IsManned :
    (w : House) (f : Person → Person)
    → ((p : Person) → is_active_parent (f p) ≡ is_active_parent p)
    → ((p : Person) → is_active_child (f p) ≡ is_active_child p)
    → IsManned w
    → IsManned (record w { people = map f w.people })
same-IsManned w f parents children m = record {
  parent = rw (count_if-map is_active_parent f w.people parents) m.parent;
  children = rw (count_if-map is_active_child f w.people children) m.children;
}

create-IsManned :
    (w : House) (id : ℤ) (name role : String) (now : Time) (hash : Option String)
    → IsManned w
    → IsManned (create_hashed w id name role now hash).0
unfolding create_hashed
create-IsManned w id name role now none m = m
create-IsManned w id name role now (some hash) m = insert-IsManned w id name role hash now m

create_valid-IsManned :
    (h : Hashing) (w : House) (id : ℤ) (name role pin : String) (now : Time) (r : Result (Unit {0}))
    → IsManned w
    → IsManned (create_valid h w id name role pin now r).0
unfolding create_valid
create_valid-IsManned h w id name role pin now (err e) m = m
create_valid-IsManned h w id name role pin now (ok u) m =
    create-IsManned w id name (role_or_child role) now (h.generate pin) m

update-IsManned :
    (w : House) (id : ℤ) (hash : Option String) → IsManned w → IsManned (update_hashed w id hash).0
unfolding update_hashed renew_pin
update-IsManned w id none m = m
update-IsManned w id (some hash) m = elim (Bool-cases (any (active_with id) w.people)) [
  | inl found ↦ rw found (
      same-IsManned w (λ p. if active_with id p then with_pin hash p else p) (λ p. ground arith)
        (λ p. ground arith) m)
  | inr missing ↦ rw missing m
]

upgrade-IsManned :
    (w : House) (id : ℤ) (pin : String) (p : Person) (hash : Option String)
    → IsManned w
    → IsManned (upgrade w id pin p hash).0
unfolding upgrade
upgrade-IsManned w id pin p none m = m
upgrade-IsManned w id pin p (some hash) m =
    same-IsManned w (hash_one id pin hash) (λ q. ground arith) (λ q. ground arith) m

verify-IsManned :
    (h : Hashing) (w : House) (id : ℤ) (pin : String) (o : Option Person)
    → IsManned w
    → IsManned (verify_found h w id pin o).0
unfolding verify_found
verify-IsManned h w id pin none m = m
verify-IsManned h w id pin (some p) m = elim (Bool-cases (h.compare_hash p.pin_hash pin)) [
  | inl right ↦ rw right m
  | inr wrong ↦ elim (Bool-cases (is_legacy p pin)) [
    | inl legacy ↦ rw (wrong, legacy) (upgrade-IsManned w id pin p (h.generate pin) m)
    | inr other ↦ rw (wrong, other) m
  ]
]

-- Every call on participants keeps an active parent, and no more active children than the limit,
-- where the identifier that is deleted stands in one row at most.
pub members-IsManned :
    (h : Hashing) (w : House) (id : ℤ) (name role pin : String) (now : Time)
    → count_if (has_id id) w.people ≤ 1
    → IsManned w
    → IsManned (create_participant h w id name role pin now).0
      × IsManned (delete_participant w id).0
      × IsManned (update_participant_pin h w id pin).0
      × IsManned (verify_participant_pin h w id pin).0
unfolding create_participant update_participant_pin verify_participant_pin
members-IsManned h w id name role pin now unique m = (
  create_valid-IsManned h w id name role pin now (validate_pin pin) m,
  delete-IsManned w id unique m,
  update-IsManned w id (h.generate pin) m,
  verify-IsManned h w id pin (find_active id w.people) m,
)
