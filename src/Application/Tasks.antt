-- ===== src/Application/Tasks.antt =====
-- Who completes and who confirms a task (`CompleteTask` and `ConfirmTask` of
-- backend/internal/application/service.go).
use family_quest.Base.{
  not, String, ℤ, eq_ℤ, Result, ok, err, forbidden, fail_if, ◌>>◌, if◌then◌else◌,
}
use family_quest.Domain.Dates.{Time}
use family_quest.Domain.Principals.{Principal, is_parent, can_complete}
use family_quest.Domain.Validation.{validate_rating}
use family_quest.Tasks.Tables.{Work}
use family_quest.Tasks.Lifecycle.{task_owner, complete_task, confirm_task}
use family_quest.Application.Access.{
  Service, Mutation, task_completion, task_confirmation, writable, other_family,
}

-- The service of a family over its tables, at a time.
abbrev pub service_of : ℤ → Work → Time → Service
service_of family w now = record { family_id = family; access_until = w.access_until; now = now }

unfoldable pub admitted : Service → Principal → Mutation → Result (Unit {0})
admitted s p action = do writable s p action; fail_if (other_family s p) forbidden

unfoldable pub complete_owned :
    (String → String) → Work → Principal → ℤ → Time → Result ℤ → Work × Result (Unit {0})
complete_owned new_id w p id now (err e) = (w, err e)
complete_owned new_id w p id now (ok owner) =
    if not (can_complete p owner)
    then (w, err forbidden)
    else complete_task new_id w id p.participant_id now

unfoldable pub complete_admitted :
    (String → String) → Work → Principal → ℤ → Time → Result (Unit {0}) → Work × Result (Unit {0})
complete_admitted new_id w p id now (err e) = (w, err e)
complete_admitted new_id w p id now (ok u) = complete_owned new_id w p id now (task_owner w id)

-- `Service.CompleteTask`.
unfoldable pub complete_task_as :
    (String → String) → ℤ → Work → Principal → ℤ → Time → Work × Result (Unit {0})
complete_task_as new_id family w p id now =
    complete_admitted new_id w p id now (admitted (service_of family w now) p task_completion)

unfoldable pub may_rate : Principal → ℤ → Result (Unit {0})
may_rate p rating = do fail_if (not (is_parent p)) forbidden; validate_rating rating

unfoldable pub confirm_owned :
    Work → Principal → ℤ → ℤ → String → Time → Result ℤ → Work × Result (Unit {0})
confirm_owned w p id rating comment now (err e) = (w, err e)
confirm_owned w p id rating comment now (ok owner) =
    if eq_ℤ owner p.participant_id
    then (w, err forbidden)
    else confirm_task w id p.participant_id rating comment now

unfoldable pub confirm_admitted :
    Work → Principal → ℤ → ℤ → String → Time → Result (Unit {0}) → Work × Result (Unit {0})
confirm_admitted w p id rating comment now (err e) = (w, err e)
confirm_admitted w p id rating comment now (ok u) =
    confirm_owned w p id rating comment now (task_owner w id)

-- `Service.ConfirmTask`.
unfoldable pub confirm_task_as :
    ℤ → Work → Principal → ℤ → ℤ → String → Time → Work × Result (Unit {0})
confirm_task_as family w p id rating comment now =
    confirm_admitted w p id rating comment now
      (do admitted (service_of family w now) p task_confirmation; may_rate p rating)
