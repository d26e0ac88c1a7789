-- ===== src/Tasks/Once.antt =====
-- Repeated completions of a task (`CompleteTask` of backend/internal/store/store.go).
use family_quest.Base.{
  ℕ, ◌≡◌, refl, ap, sym, ◌∙◌, true, false, List, map, String, ℤ, some, eq_ℤ, eq_ℤ_iff, any,
  any-none, any-get_elem, arith, Bool-cases, inl, inr, if◌then◌else◌, get_elem?, get_elem?-map-some,
  ok, err, not_found,
}
use family_quest.Domain.Dates.{Time}
use family_quest.Tasks.Tables.{Work, TaskRow}
use family_quest.Tasks.Lifecycle.{complete_task, complete_rows, completable, completed}

-- The primary key of `tasks`.
abbrev pub IsKeyedTasks : List TaskRow → Type 0
IsKeyedTasks ts =
    (i j : ℕ) (a b : TaskRow)
    → get_elem? ts i ≡ some a
    → get_elem? ts j ≡ some b
    → a.id ≡ b.id
    → i ≡ j

completable_id :
    (w : Work) (id who : ℤ) (t : TaskRow) → completable w id who t ≡ true → eq_ℤ t.id id ≡ true
unfolding completable
completable_id w id who t h = ground arith

completed_shut :
    (w : Work) (id other who : ℤ) (now : Time) (t : TaskRow)
    → completable w id other (completed who now t) ≡ false
unfolding completable
completed_shut w id other who now t = ground arith

wrong_id_shut :
    (w : Work) (id other : ℤ) (t : TaskRow)
    → eq_ℤ t.id id ≡ false
    → completable w id other t ≡ false
unfolding completable
wrong_id_shut w id other t h = ground arith

-- The row with the identifier is the one that is completed.
other_task :
    (w : Work) (id who : ℤ) (i : ℕ) (t : TaskRow)
    → IsKeyedTasks w.tasks
    → any (completable w id who) w.tasks ≡ true
    → get_elem? w.tasks i ≡ some t
    → completable w id who t ≡ false
    → eq_ℤ t.id id ≡ false
other_task w id who i t key h place miss = elim (Bool-cases (eq_ℤ t.id id)) [
  | inl hit ↦
      let (j, c, there, open_row) = any-get_elem (completable w id who) w.tasks h in
      let of_id : eq_ℤ c.id id ≡ true = completable_id w id who c open_row in
      let ids : t.id ≡ c.id = (eq_ℤ_iff t.id id).0 hit ∙ sym ((eq_ℤ_iff c.id id).0 of_id) in
      let spot : i ≡ j = key i j t c place there ids in let same : t ≡ c = cc in absurd (cc)
  | inr other ↦ other
]

-- No row is completable behind a completion.
completed_row_shut :
    (w later : Work) (id who other : ℤ) (now : Time) (t : TaskRow)
    → (completable w id who t ≡ false → eq_ℤ t.id id ≡ false)
    → completable later id other (if completable w id who t then completed who now t else t) ≡ false
completed_row_shut w later id who other now t h = elim (Bool-cases (completable w id who t)) [
  | inl hit ↦ rw hit (completed_shut later id other who now t)
  | inr miss ↦ rw miss (wrong_id_shut later id other t (h miss))
]

completed_rows_shut :
    (w later : Work) (id who other : ℤ) (now : Time)
    → IsKeyedTasks w.tasks
    → any (completable w id who) w.tasks ≡ true
    → any (completable later id other) (complete_rows (completable w id who) who now w.tasks)
      ≡ false
unfolding complete_rows
completed_rows_shut w later id who other now key h =
    let one : TaskRow → TaskRow = λ x. if completable w id who x then completed who now x else x in
    any-none (completable later id other) (map one w.tasks) (λ i u place.
      let (t, before, e) = get_elem?-map-some one w.tasks i u place in
      let shut =
        completed_row_shut w later id who other now t (other_task w id who i t key h before) in
      ap (completable later id other) (sym e) ∙ shut)

complete_refused :
    (new_id : String → String) (w : Work) (id who : ℤ) (now : Time)
    → any (completable w id who) w.tasks ≡ false
    → complete_task new_id w id who now ≡ (w, err not_found)
unfolding complete_task
complete_refused new_id w id who now h = rw h refl

complete_accepted :
    (new_id : String → String) (w : Work) (id who : ℤ) (now : Time)
    → (complete_task new_id w id who now).1 ≡ ok tt
    → (any (completable w id who) w.tasks ≡ true)
      × ((complete_task new_id w id who now).0.tasks
          ≡ complete_rows (completable w id who) who now w.tasks)
unfolding complete_task
complete_accepted new_id w id who now h = elim (Bool-cases (any (completable w id who) w.tasks)) [
  | inl found ↦ (found, rw found refl)
  | inr missing ↦ absurd (let bad = rw missing at h in cc)
]

-- When a completion has been accepted, completing the same task again, by whichever participant
-- and at any time, is refused as not found and changes nothing, so that no event is sent twice;
-- where the identifiers of tasks are different.
pub complete_once :
    (new_id next_id : String → String) (w : Work) (id who other : ℤ) (now later : Time)
    → IsKeyedTasks w.tasks
    → (complete_task new_id w id who now).1 ≡ ok tt
    → (let after = (complete_task new_id w id who now).0 in
        complete_task next_id after id other later ≡ (after, err not_found))
complete_once new_id next_id w id who other now later key h =
    let after = (complete_task new_id w id who now).0 in
    let (found, rows) = complete_accepted new_id w id who now h in
    complete_refused next_id after id other later (
      ap (any (completable after id other)) rows
      ∙ completed_rows_shut w after id who other now key found)
