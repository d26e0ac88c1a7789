-- ===== src/Examples/UseCases.antt =====
-- The theorems on use cases at concrete requests (backend/internal/application).
use family_quest.Base.{◌≡◌, refl, [], ◌∷◌, pos, err, forbidden, none}
use family_quest.Domain.Principals.{Principal}
use family_quest.Domain.Reading.{ReadingCompletion}
use family_quest.Family.Entry.{FamilyDraft}
use family_quest.Store.Db.{Db}
use family_quest.Application.Access.{Service}
use family_quest.Application.Cards.{create_family_entry, edit_family_entry}
use family_quest.Application.Lessons.{start_math, answer, finish, complete_lesson, start_lesson}
use family_quest.Application.Earned.{edit_family_entry-earns_nothing, agent-interactive}
use family_quest.Examples.Data.{noon, mother, son, card, draft, database, settings}
use family_quest.Examples.Opened.{counter}
use family_quest.Examples.Cards.{stored_card}

abbrev service : Service
service = record { family_id = pos 1; access_until = none; now = noon }

abbrev agent : Principal
agent = record son { mcp_grant_id = "g" }

abbrev filled : Db
filled = record database { family_entries = card "adventure" ∷ [] }

abbrev new_plan : FamilyDraft
new_plan = draft (record { title = "Палатка"; participant_id = pos 2 } ∷ [])

abbrev long_text : ReadingCompletion
long_text = record { id = "0123456789abcdef0123456789abcdef"; level = "advanced" }

edit_family_entry-earns_nothing_example :
    (edit_family_entry service filled mother (pos 7) (pos 3) new_plan).0.activity_rewards ≡ []
edit_family_entry-earns_nothing_example =
    edit_family_entry-earns_nothing service filled mother (pos 7) (pos 3) new_plan stored_card

agent-interactive_example :
    (create_family_entry service filled agent "habit" new_plan ≡ (filled, err forbidden))
    × (edit_family_entry service filled agent (pos 7) (pos 3) new_plan ≡ (filled, err forbidden))
    × (start_math service filled agent counter 17 "x" settings ≡ (filled, err forbidden))
    × (answer service filled agent "x" (pos 0) (("answer", pos 5) ∷ []) ≡ (filled, err forbidden))
    × (finish service filled agent "x" ≡ (filled, err forbidden))
    × (complete_lesson service filled agent long_text ≡ (filled, err forbidden))
    × (start_lesson service filled agent long_text ≡ (filled, err forbidden))
agent-interactive_example =
    agent-interactive service filled agent "habit" "x" new_plan (pos 7) (pos 3) (pos 0)
      (("answer", pos 5) ∷ []) long_text counter 17 settings refl
