-- ===== src/Application/FourEyes.antt =====
-- Who confirms a task (`CompleteTask` and `ConfirmTask` of backend/internal/application/service.go).
use family_quest.Base.{
  ◌≡◌, refl, Bool, true, false, not, ◌&&◌, ◌||◌, List, [], ◌∷◌, map, String, ℤ, pos, lt_ℤ, eq_ℤ,
  all, any, arith, Bool-cases, inl, inr, Result, ok, err, ◌>>◌, ◌⊎◌, fail_if, str_eq, forbidden,
  if◌then◌else◌,
}
use family_quest.Domain.Dates.{Time}
use family_quest.Domain.Principals.{Principal, can_complete, is_parent}
use family_quest.Tasks.Tables.{Work, TaskRow, Confirmation}
use family_quest.Tasks.Lifecycle.{
  find_task, owner_of, task_owner, complete_task, confirm_task, complete_rows, confirm_rows,
  completable, completed, confirmable, confirmed, put_confirmation,
}
use family_quest.Application.Tasks.{
  complete_task_as, complete_admitted, complete_owned, confirm_task_as, confirm_admitted,
  confirm_owned, admitted, may_rate, service_of,
}
use family_quest.Application.Access.{
  Service, Mutation, task_completion, task_confirmation, authorize_grant, authorize_mutation,
  writable, check_bound, check_write_access,
}

abbrev pub other_than : ℤ → Result ℤ → Bool
other_than who (ok owner) = not (eq_ℤ owner who)
other_than who (err e) = true

-- The rating is one to five, and not the owner's.
abbrev pub is_fair : Work → Confirmation → Bool
is_fair w c =
    not (lt_ℤ c.rating (pos 1) || lt_ℤ (pos 5) c.rating)
    && other_than c.participant_id (task_owner w c.task_id)

-- Rows that keep their identifiers and assignments keep their owners.
module _ (f : TaskRow → TaskRow) (ids : (t : TaskRow) → (f t).id ≡ t.id)
    (work : (t : TaskRow) → (f t).assignment_id ≡ t.assignment_id) where
  owner_of-map :
      (u w : Work) (id : ℤ) (ts : List TaskRow)
      → u.assignments ≡ w.assignments
      → owner_of u (find_task id (map f ts)) ≡ owner_of w (find_task id ts)
  unfolding find_task owner_of
  owner_of-map u w id [] same = refl
  owner_of-map u w id (t ∷ ts) same = elim (Bool-cases (eq_ℤ t.id id)) [
    | inl hit ↦ rw (ids t, hit, work t, same) refl
    | inr miss ↦ rw (ids t, miss) (owner_of-map u w id ts same)
  ]

complete-owner :
    (new_id : String → String) (w : Work) (id who : ℤ) (now : Time) (task : ℤ)
    → task_owner (complete_task new_id w id who now).0 task ≡ task_owner w task
unfolding task_owner complete_task complete_rows
complete-owner new_id w id who now task = elim (Bool-cases (any (completable w id who) w.tasks)) [
  | inl found ↦ rw found (
      owner_of-map (λ t. if completable w id who t then completed who now t else t)
        (λ t. ground arith) (λ t. ground arith) _ w task w.tasks refl)
  | inr missing ↦ rw missing refl
]

confirm-owner :
    (w : Work) (id who rating : ℤ) (comment : String) (now : Time) (task : ℤ)
    → task_owner (confirm_task w id who rating comment now).0 task ≡ task_owner w task
unfolding task_owner confirm_task confirm_rows
confirm-owner w id who rating comment now task =
    elim (Bool-cases (lt_ℤ rating (pos 1) || lt_ℤ (pos 5) rating)) [
      | inl bad ↦ rw bad refl
      | inr rated ↦ elim (Bool-cases (any (confirmable id) w.tasks)) [
        | inl found ↦
            rw (rated, found)
              (owner_of-map (λ t. if confirmable id t then confirmed now t else t)
                (λ t. ground arith) (λ t. ground arith) _ w task w.tasks refl)
        | inr missing ↦ rw (rated, missing) refl
      ]
    ]

all-same :
    (p q : Confirmation → Bool) (cs : List Confirmation)
    → ((c : Confirmation) → p c ≡ q c)
    → all q cs ≡ true
    → all p cs ≡ true
all-same p q [] same h = refl
all-same p q (c ∷ cs) same h = ground (arith, same c, all-same p q cs same)

put_confirmation-all :
    (p : Confirmation → Bool) (c : Confirmation) (cs : List Confirmation)
    → p c ≡ true
    → all p cs ≡ true
    → all p (put_confirmation c cs) ≡ true
unfolding put_confirmation
put_confirmation-all p c [] one h = ground arith
put_confirmation-all p c (x ∷ xs) one h = ground (arith, put_confirmation-all p c xs)

complete-confirmations :
    (new_id : String → String) (w : Work) (id who : ℤ) (now : Time)
    → (complete_task new_id w id who now).0.confirmations ≡ w.confirmations
unfolding complete_task
complete-confirmations new_id w id who now = ground arith

confirm-stored :
    (w : Work) (id who rating owner : ℤ) (comment : String) (now : Time)
    → task_owner w id ≡ ok owner
    → eq_ℤ owner who ≡ false
    → all (is_fair w) w.confirmations ≡ true
    → all (is_fair w) (confirm_task w id who rating comment now).0.confirmations ≡ true
unfolding confirm_task
confirm-stored w id who rating owner comment now owned other h =
    elim (Bool-cases (lt_ℤ rating (pos 1) || lt_ℤ (pos 5) rating)) [
      | inl bad ↦ rw bad h
      | inr rated ↦ elim (Bool-cases (any (confirmable id) w.tasks)) [
        | inl found ↦
            rw (rated, found)
              (put_confirmation-all (is_fair w) _ w.confirmations (rw (rated, owned, other) refl) h)
        | inr missing ↦ rw (rated, missing) h
      ]
    ]

complete_task-fair :
    (new_id : String → String) (w : Work) (id who : ℤ) (now : Time)
    → all (is_fair w) w.confirmations ≡ true
    → (let u = (complete_task new_id w id who now).0 in all (is_fair u) u.confirmations ≡ true)
complete_task-fair new_id w id who now h =
    let u = (complete_task new_id w id who now).0 in
    let kept : u.confirmations ≡ w.confirmations = complete-confirmations new_id w id who now in
    rw kept (
      all-same (is_fair u) (is_fair w) w.confirmations
        (λ c. rw (complete-owner new_id w id who now c.task_id) refl) h)

confirm_task-fair :
    (w : Work) (id who rating owner : ℤ) (comment : String) (now : Time)
    → task_owner w id ≡ ok owner
    → eq_ℤ owner who ≡ false
    → all (is_fair w) w.confirmations ≡ true
    → (let u = (confirm_task w id who rating comment now).0 in
        all (is_fair u) u.confirmations ≡ true)
confirm_task-fair w id who rating owner comment now owned other h =
    let u = (confirm_task w id who rating comment now).0 in
    let before = confirm-stored w id who rating owner comment now owned other h in
    all-same (is_fair u) (is_fair w) u.confirmations
      (λ c. rw (confirm-owner w id who rating comment now c.task_id) refl) before

complete_owned-fair :
    (new_id : String → String) (w : Work) (p : Principal) (id : ℤ) (now : Time) (owner : Result ℤ)
    → all (is_fair w) w.confirmations ≡ true
    → (let u = (complete_owned new_id w p id now owner).0 in all (is_fair u) u.confirmations ≡ true)
unfolding complete_owned
complete_owned-fair new_id w p id now (err e) h = h
complete_owned-fair new_id w p id now (ok owner) h = elim (Bool-cases (can_complete p owner)) [
  | inl mine ↦ rw mine (complete_task-fair new_id w id p.participant_id now h)
  | inr foreign ↦ rw foreign h
]

complete_admitted-fair :
    (new_id : String → String) (w : Work) (p : Principal) (id : ℤ) (now : Time)
    (r : Result (Unit {0}))
    → all (is_fair w) w.confirmations ≡ true
    → (let u = (complete_admitted new_id w p id now r).0 in all (is_fair u) u.confirmations ≡ true)
unfolding complete_admitted
complete_admitted-fair new_id w p id now (err e) h = h
complete_admitted-fair new_id w p id now (ok u) h =
    complete_owned-fair new_id w p id now (task_owner w id) h

confirm_owned-fair :
    (w : Work) (p : Principal) (id rating : ℤ) (comment : String) (now : Time) (owner : Result ℤ)
    → task_owner w id ≡ owner
    → all (is_fair w) w.confirmations ≡ true
    → (let u = (confirm_owned w p id rating comment now owner).0 in
        all (is_fair u) u.confirmations ≡ true)
unfolding confirm_owned
confirm_owned-fair w p id rating comment now (err e) owned h = h
confirm_owned-fair w p id rating comment now (ok owner) owned h =
    elim (Bool-cases (eq_ℤ owner p.participant_id)) [
      | inl mine ↦ rw mine h
      | inr foreign ↦
          rw foreign
            (confirm_task-fair w id p.participant_id rating owner comment now owned foreign h)
    ]

confirm_admitted-fair :
    (w : Work) (p : Principal) (id rating : ℤ) (comment : String) (now : Time)
    (r : Result (Unit {0}))
    → all (is_fair w) w.confirmations ≡ true
    → (let u = (confirm_admitted w p id rating comment now r).0 in
        all (is_fair u) u.confirmations ≡ true)
unfolding confirm_admitted
confirm_admitted-fair w p id rating comment now (err e) h = h
confirm_admitted-fair w p id rating comment now (ok u) h =
    confirm_owned-fair w p id rating comment now (task_owner w id) refl h

-- Whoever completes or confirms whichever task, every stored confirmation rates from one to five
-- and is not by the owner of its task, where it was so before.
pub tasks-fair :
    (new_id : String → String) (family : ℤ) (w : Work) (p : Principal) (id rating : ℤ)
    (comment : String) (now : Time)
    → all (is_fair w) w.confirmations ≡ true
    → (let u = (complete_task_as new_id family w p id now).0 in
        let v = (confirm_task_as family w p id rating comment now).0 in
        (all (is_fair u) u.confirmations ≡ true) × (all (is_fair v) v.confirmations ≡ true))
unfolding complete_task_as confirm_task_as
tasks-fair new_id family w p id rating comment now h = (
  complete_admitted-fair new_id w p id now (admitted (service_of family w now) p task_completion) h,
  confirm_admitted-fair w p id rating comment now
      (admitted (service_of family w now) p task_confirmation >> may_rate p rating) h,
)

fail_if-sum : (b : Bool) → (fail_if b forbidden ≡ ok tt) ⊎ (fail_if b forbidden ≡ err forbidden)
fail_if-sum true = inr refl
fail_if-sum false = inl refl

-- Two checks, one behind the other.
both_checks :
    (a b : Result (Unit {0}))
    → (a ≡ ok tt) ⊎ (a ≡ err forbidden)
    → (b ≡ ok tt) ⊎ (b ≡ err forbidden)
    → ((a >> b) ≡ ok tt) ⊎ ((a >> b) ≡ err forbidden)
both_checks a b (inl x) (inl y) = inl (rw (x, y) refl)
both_checks a b (inl x) (inr y) = inr (rw (x, y) refl)
both_checks a b (inr x) y = inr (rw x refl)

module _ (s : Service) (p : Principal) (action : Mutation) where
  authorize_grant-sum :
      (authorize_grant p action ≡ ok tt) ⊎ (authorize_grant p action ≡ err forbidden)
  unfolding authorize_grant
  authorize_grant-sum = elim (Bool-cases (str_eq p.mcp_grant_id "")) [
    | inl person ↦ inl (rw person refl)
    | inr agent ↦ rw agent (fail_if-sum _)
  ]

  check_bound-sum : (check_bound s ≡ ok tt) ⊎ (check_bound s ≡ err forbidden)
  unfolding check_bound check_write_access
  check_bound-sum = elim (Bool-cases (eq_ℤ s.family_id (pos 0))) [
    | inl free ↦ inl (rw free refl)
    | inr bound ↦ rw bound (fail_if-sum _)
  ]

  -- The checks in front of a change refuse as forbidden, or not at all.
  admitted-sum : (admitted s p action ≡ ok tt) ⊎ (admitted s p action ≡ err forbidden)
  unfolding admitted writable authorize_mutation
  admitted-sum =
      both_checks _ _
        (both_checks _ _ (both_checks _ _ (fail_if-sum _) authorize_grant-sum) check_bound-sum)
        (fail_if-sum _)

-- Only a parent of the family confirms a task: any other caller is refused as forbidden, and nothing
-- changes.
pub confirm-parent :
    (family : ℤ) (w : Work) (p : Principal) (id rating : ℤ) (comment : String) (now : Time)
    → is_parent p ≡ false
    → confirm_task_as family w p id rating comment now ≡ (w, err forbidden)
unfolding confirm_task_as may_rate confirm_admitted
confirm-parent family w p id rating comment now h =
    elim (admitted-sum (service_of family w now) p task_confirmation) [
      | inl fine ↦ rw (fine, h) refl
      | inr denied ↦ rw denied refl
    ]
