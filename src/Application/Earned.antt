-- ===== src/Application/Earned.antt =====
-- What edits earn, and what agents are refused (backend/internal/application/family.go, learning.go).
use family_quest.Base.{
  ℕ, ◌≡◌, ◌≢◌, refl, sym, ap, ◌∙◌, inl, inr, true, false, List, [], ◌∷◌, ℤ, pos, String, str_eq,
  eq_ℤ, eq_ℤ_iff, eq_iff, ltb, length, Result, ok, err, Option, none, some, arith, ◌+ℤ◌, not, ◌&&◌,
  ◌||◌, Bool-cases, forbidden,
}
use family_quest.Domain.Dates.{Time}
use family_quest.Domain.Principals.{Principal}
use family_quest.Domain.Reading.{ReadingCompletion}
use family_quest.Family.Entry.{FamilyEntry, FamilyDraft, FamilyStep, FamilyEvent, can_edit}
use family_quest.Family.Awards.{PlanKept, family_reward_candidates-nil}
use family_quest.Math.Settings.{MathSettings}
use family_quest.Math.Work.{Values}
use family_quest.Math.Draws.{Random}
use family_quest.Store.Db.{Db}
use family_quest.Store.FamilyEntries.{
  find_entry, insert_rewards, update_entry, save_found, save_family_entry, get_family_entry,
  entry_result,
}
use family_quest.Application.Access.{
  Service, interactive_mutation, authorize_grant, authorize_mutation, writable,
}
use family_quest.Application.Cards.{
  no_entry, allowed, save_valid, save_checked, same_steps, others_sport,
  validate_family_participants, edited, edit_found, edit_allowed, edit_family_entry, create_allowed,
  create_family_entry,
}
use family_quest.Application.Lessons.{
  allowed_math, start_math_allowed, start_math, allowed_lesson, answer_allowed, answer,
  finish_allowed, finish, allowed_reading, complete_allowed, complete_lesson, allowed_start,
  start_allowed, start_lesson,
}

find_entry_id :
    (id : ℤ) (es : List FamilyEntry) (e : FamilyEntry) → find_entry id es ≡ some e → e.id ≡ id
unfolding find_entry
find_entry_id id [] e h = ground arith
find_entry_id id (x ∷ es) e h = ground (arith, find_entry_id id es e, eq_ℤ_iff x.id id)

same_steps-eq : (xs ys : List FamilyStep) → same_steps xs ys ≡ true → ys ≡ xs
unfolding same_steps
same_steps-eq [] [] h = refl
same_steps-eq [] (y ∷ ys) h = ground arith
same_steps-eq (x ∷ xs) [] h = ground arith
same_steps-eq (x ∷ xs) (y ∷ ys) h =
    ground (
      arith,
      same_steps-eq xs ys,
      eq_iff x.title y.title,
      eq_ℤ_iff x.participant_id y.participant_id,
    )

module _ (db : Db) (before e : FamilyEntry) (now : Time) (stored : before.id ≢ pos 0)
    (same_id : e.id ≡ before.id) (found : find_entry before.id db.family_entries ≡ some before)
    (plan : PlanKept before e) (same_events : e.events ≡ before.events) where
  update_entry-earns_nothing :
      (update_entry db before e now).0.activity_rewards ≡ db.activity_rewards
  unfolding update_entry insert_rewards
  update_entry-earns_nothing =
      let saved : FamilyEntry = record e {
        version = before.version +ℤ pos 1;
        author_id = before.author_id;
        created_at = before.created_at;
        updated_at = now;
      } in
      rw (family_reward_candidates-nil before saved stored plan same_events) refl

  save_family_entry-earns_nothing :
      (save_family_entry db no_entry e now).0.activity_rewards ≡ db.activity_rewards
  unfolding save_family_entry save_found
  save_family_entry-earns_nothing = elim (Bool-cases (eq_ℤ before.version e.version)) [
    | inl fresh ↦
        ground (arith, same_id, found, fresh, eq_ℤ_iff e.id (pos 0), update_entry-earns_nothing)
    | inr stale ↦ ground (arith, same_id, found, stale, eq_ℤ_iff e.id (pos 0))
  ]

module _ (s : Service) (db : Db) (p : Principal) (before e : FamilyEntry)
    (stored : before.id ≢ pos 0) (same_id : e.id ≡ before.id)
    (found : find_entry before.id db.family_entries ≡ some before) (plan : PlanKept before e)
    (same_events : e.events ≡ before.events) where
  save_valid-earns_nothing :
      (r : Result (Unit {0})) → (save_valid s db e r).0.activity_rewards ≡ db.activity_rewards
  unfolding save_valid
  save_valid-earns_nothing (err x) = refl
  save_valid-earns_nothing (ok u) =
      save_family_entry-earns_nothing db before e s.now stored same_id found plan same_events

  save_checked-earns_nothing : (save_checked s db p e).0.activity_rewards ≡ db.activity_rewards
  unfolding save_checked
  save_checked-earns_nothing = elim (Bool-cases (others_sport e p)) [
    | inl foreign ↦ rw foreign refl
    | inr own ↦ rw own (save_valid-earns_nothing (validate_family_participants s db e))
  ]

no_events : (vs : List FamilyEvent) → ltb 0 (length vs) ≡ false → vs ≡ []
no_events [] h = refl
no_events (v ∷ vs) h = ground arith

-- The guard on the plan of a card with history.
plan_kept :
    (p : Principal) (before : FamilyEntry) (draft : FamilyDraft)
    → ltb 0 (length before.events) && not (same_steps before.steps draft.steps) ≡ false
    → PlanKept before (edited p before draft)
unfolding edited
plan_kept p before draft h = elim (Bool-cases (same_steps before.steps draft.steps)) [
  | inl same ↦ inl (same_steps-eq before.steps draft.steps same)
  | inr changed ↦ inr (no_events before.events (ground arith))
]

module _ (s : Service) (db : Db) (p : Principal) (version : ℤ) (draft : FamilyDraft) where
  edit_found-earns_nothing :
      (before : FamilyEntry)
      → before.id ≢ pos 0
      → find_entry before.id db.family_entries ≡ some before
      → (edit_found s db p version draft (ok before)).0.activity_rewards ≡ db.activity_rewards
  unfolding edit_found edited
  edit_found-earns_nothing before stored found = elim (Bool-cases (can_edit before p)) [
    | inr denied ↦ rw denied refl
    | inl allowed ↦ elim (Bool-cases (not (eq_ℤ before.version version) || before.archived)) [
      | inl stale ↦ rw (allowed, stale) refl
      | inr fresh ↦
          elim (Bool-cases
            (ltb 0 (length before.events) && not (same_steps before.steps draft.steps))) [
              | inl moved ↦ rw (allowed, fresh, moved) refl
              | inr kept ↦
                  rw (allowed, fresh, kept)
                    (save_checked-earns_nothing s db p before (edited p before draft) stored refl
                      found (plan_kept p before draft kept) refl)
            ]
    ]
  ]

  edit_stored-earns_nothing :
      (id : ℤ) (o : Option FamilyEntry)
      → id ≢ pos 0
      → find_entry id db.family_entries ≡ o
      → (edit_found s db p version draft (entry_result o)).0.activity_rewards ≡ db.activity_rewards
  unfolding edit_found
  edit_stored-earns_nothing id none stored found = refl
  edit_stored-earns_nothing id (some before) stored found =
      let same : before.id ≡ id = find_entry_id id db.family_entries before found in
      edit_found-earns_nothing before (λ h. stored (sym same ∙ h))
        (ap (λ (j : ℤ). find_entry j db.family_entries) same ∙ found)

  edit_allowed-earns_nothing :
      (id : ℤ) (r : Result (Unit {0}))
      → id ≢ pos 0
      → (edit_allowed s db p id version draft r).0.activity_rewards ≡ db.activity_rewards
  unfolding edit_allowed get_family_entry
  edit_allowed-earns_nothing id (err x) stored = refl
  edit_allowed-earns_nothing id (ok u) stored =
      edit_stored-earns_nothing id (find_entry id db.family_entries) stored refl

-- Editing a stored card never earns a reward, whoever edits it and whatever the draft is.
pub edit_family_entry-earns_nothing :
    (s : Service) (db : Db) (p : Principal) (id version : ℤ) (draft : FamilyDraft)
    → id ≢ pos 0
    → (edit_family_entry s db p id version draft).0.activity_rewards ≡ db.activity_rewards
unfolding edit_family_entry
edit_family_entry-earns_nothing s db p id version draft stored =
    edit_allowed-earns_nothing s db p version draft id (allowed s p interactive_mutation) stored

module _ (s : Service) (p : Principal) (agent : str_eq p.mcp_grant_id "" ≡ false) where
  authorize_mutation-agent : authorize_mutation s p interactive_mutation ≡ err forbidden
  unfolding authorize_mutation authorize_grant
  authorize_mutation-agent = ground arith

  allowed-agent : allowed s p interactive_mutation ≡ err forbidden
  unfolding allowed writable
  allowed-agent = rw authorize_mutation-agent refl

  allowed_lesson-agent : allowed_lesson s p ≡ err forbidden
  unfolding allowed_lesson
  allowed_lesson-agent = rw authorize_mutation-agent refl

  allowed_math-agent : (settings : MathSettings) → allowed_math s p settings ≡ err forbidden
  unfolding allowed_math writable
  allowed_math-agent settings = rw authorize_mutation-agent refl

  allowed_reading-agent : (c : ReadingCompletion) → allowed_reading s p c ≡ err forbidden
  unfolding allowed_reading writable
  allowed_reading-agent c = rw authorize_mutation-agent refl

  allowed_start-agent : (c : ReadingCompletion) → allowed_start s p c ≡ err forbidden
  unfolding allowed_start writable
  allowed_start-agent c = ground (arith, authorize_mutation-agent)

-- An agent that acts by a delegation neither creates nor edits a card, nor starts, answers or
-- finishes an arithmetic session, nor starts or completes a reading lesson: each is refused as
-- forbidden, and nothing changes.
pub agent-interactive :
    (s : Service) (db : Db) (p : Principal) (kind id : String) (draft : FamilyDraft)
    (card version i : ℤ) (values : Values) (c : ReadingCompletion) (r : Random) (rounds : ℕ)
    (settings : MathSettings)
    → str_eq p.mcp_grant_id "" ≡ false
    → (create_family_entry s db p kind draft ≡ (db, err forbidden))
      × (edit_family_entry s db p card version draft ≡ (db, err forbidden))
      × (start_math s db p r rounds id settings ≡ (db, err forbidden))
      × (answer s db p id i values ≡ (db, err forbidden))
      × (finish s db p id ≡ (db, err forbidden))
      × (complete_lesson s db p c ≡ (db, err forbidden))
      × (start_lesson s db p c ≡ (db, err forbidden))
unfolding create_family_entry create_allowed edit_family_entry edit_allowed start_math
    start_math_allowed answer answer_allowed finish finish_allowed complete_lesson complete_allowed
    start_lesson start_allowed
agent-interactive s db p kind id draft card version i values c r rounds settings agent = (
  rw (allowed-agent s p agent) refl,
  rw (allowed-agent s p agent) refl,
  rw (allowed_math-agent s p agent settings) refl,
  rw (allowed_lesson-agent s p agent) refl,
  rw (allowed_lesson-agent s p agent) refl,
  rw (allowed_reading-agent s p agent c) refl,
  rw (allowed_start-agent s p agent c) refl,
)
