-- ===== src/Store/MathSessions.antt =====
-- `CreateMathSession`, `AnswerMath` and `FinishMath` (backend/internal/store/learning.go).
use family_quest.Base.{
  ℕ, Bool, true, not, ◌&&◌, List, [], ◌∷◌, String, ℤ, pos, lt_ℤ, eq_ℤ, str_eq, pos_part, length,
  get_elem?, Error, Result, ok, err, forbidden, not_found, Option, none, some, ltb, if◌then◌else◌,
}
use family_quest.Domain.Dates.{Time}
use family_quest.Domain.Profile.{policy, allows_math}
use family_quest.Domain.ActivityRewards.{ActivityReward}
use family_quest.Math.Work.{Values}
use family_quest.Math.Session.{MathAnswer, MathSession, submit, award_answer}
use family_quest.Store.Db.{
  Db, ParticipantRow, MathRow, active_child, insert_activity_reward, earned_stars,
}

-- Still open, and with questions left.
abbrev pub is_unfinished : MathSession → Bool
is_unfinished s = not s.closed && ltb (length s.answers) (length s.questions)

unfoldable pub unfinished_of : ℤ → List MathRow → Option MathRow
unfinished_of owner [] = none
unfinished_of owner (r ∷ rs) =
    if eq_ℤ r.participant_id owner && is_unfinished r.session
    then some r
    else unfinished_of owner rs

-- The rows are not ordered here: the statement takes the newest, and there is one at most.
unfoldable pub insert_session : Db → MathSession → Db × Result MathSession
insert_session db s = (
  record db {
    math_sessions =
        record { id = s.id; participant_id = s.participant_id; session = s } ∷ db.math_sessions;
  },
  ok s,
)

-- `json.Unmarshal` into the session that was passed in: the two versions carry `omitempty`, so a
-- stored zero is absent from the text and leaves what the new session has.
unfoldable pub decode_over : MathSession → MathSession → MathSession
decode_over given stored = record stored {
  policy_version =
      if eq_ℤ stored.policy_version (pos 0) then given.policy_version else stored.policy_version;
  reward_version =
      if eq_ℤ stored.reward_version (pos 0) then given.reward_version else stored.reward_version;
}

unfoldable pub create_for :
    Db → MathSession → Option ParticipantRow → Option MathRow → Db × Result MathSession
create_for db s none unfinished = (db, err forbidden)
create_for db s (some p) (some r) = (db, ok (decode_over s r.session))
create_for db s (some p) none =
    let granted = policy p.profile s.created_at in
    if lt_ℤ (pos 0) db.family_id
    then (if not (allows_math granted s.settings.level)
        then (db, err forbidden)
        else insert_session db (record s { policy_version = granted.version }))
    else insert_session db s

-- `CreateMathSession`. A retry of the same identifier meets the unfinished session first; that a
-- finished one has the same random identifier, a primary key, is left out.
unfoldable pub create_math_session : Db → MathSession → Db × Result MathSession
create_math_session db s =
    create_for db s (active_child s.participant_id db.participants)
      (unfinished_of s.participant_id db.math_sessions)

unfoldable pub find_session : String → ℤ → List MathRow → Option MathSession
find_session id owner [] = none
find_session id owner (r ∷ rs) =
    if str_eq r.id id && eq_ℤ r.participant_id owner
    then some r.session
    else find_session id owner rs

-- `update math_sessions set data=$2 where id=$1`.
unfoldable pub update_session : String → MathSession → List MathRow → List MathRow
update_session id s [] = []
update_session id s (r ∷ rs) =
    (if str_eq r.id id then record r { session = s } else r) ∷ update_session id s rs

abbrev pub add_reward : Db → Option ActivityReward → List ActivityReward
add_reward db none = db.activity_rewards
add_reward db (some r) = insert_activity_reward db.participants db.activity_rewards r

abbrev pub answer_date : Option MathAnswer → String
answer_date none = ""
answer_date (some a) = a.date

-- The end of `AnswerMath`, once the new answer is capped.
unfoldable pub store_award :
    Db → String → MathSession × Option ActivityReward → Db × Result MathSession
store_award db id (s, reward) = (
  record db {
    math_sessions = update_session id s db.math_sessions;
    activity_rewards = add_reward db reward;
  },
  ok s,
)

unfoldable pub store_answer :
    Db → ℤ → String → ℤ → ℕ → MathSession × Option Error → Db × Result MathSession
store_answer db owner id i before (s, some e) = (db, err e)
store_answer db owner id i before (s, none) =
    let date = answer_date (get_elem? s.answers (pos_part i)) in
    let earned = earned_stars "math" owner date db.activity_rewards in
    if ltb before (length s.answers)
    then store_award db id (award_answer s i earned)
    else (db, ok s)

unfoldable pub answer_session :
    Db → ℤ → String → ℤ → Values → Time → Option MathSession → Db × Result MathSession
answer_session db owner id i values now none = (db, err not_found)
answer_session db owner id i values now (some s) =
    store_answer db owner id i (length s.answers) (submit s i values now)

unfoldable pub answer_for :
    Db → ℤ → String → ℤ → Values → Time → Option ParticipantRow → Db × Result MathSession
answer_for db owner id i values now none = (db, err forbidden)
answer_for db owner id i values now (some p) =
    answer_session db owner id i values now (find_session id owner db.math_sessions)

-- `AnswerMath`.
unfoldable pub answer_math : Db → ℤ → String → ℤ → Values → Time → Db × Result MathSession
answer_math db owner id i values now =
    answer_for db owner id i values now (active_child owner db.participants)

unfoldable pub close_session : String → ℤ → List MathRow → List MathRow
close_session id owner [] = []
close_session id owner (r ∷ rs) =
    (if str_eq r.id id && eq_ℤ r.participant_id owner
      then record r { session = record (r.session) { closed = true } }
      else r)
    ∷ close_session id owner rs

unfoldable pub finish_found : Db → String → ℤ → Option MathSession → Db × Result MathSession
finish_found db id owner none = (db, err not_found)
finish_found db id owner (some s) = (
  record db { math_sessions = close_session id owner db.math_sessions },
  ok (record s { closed = true }),
)

-- `FinishMath`.
unfoldable pub finish_math : Db → ℤ → String → Db × Result MathSession
finish_math db owner id = finish_found db id owner (find_session id owner db.math_sessions)
