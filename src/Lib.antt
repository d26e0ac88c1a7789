-- ===== src/Lib.antt =====
-- FamilyQuest: the rules of the backend (backend/internal/domain), the transactions that apply them
-- (backend/internal/store), the use cases around these, and the registry of signed-in sessions.
--
-- A family keeps cards of shared activities, on which members leave marks, and children train
-- arithmetic and reading. Progress earns stars, under daily budgets, in a ledger of rewards.
--
--   Base      Boolean tests, lists over the native numbers, 64-bit integers with their wrap-around,
--             texts as sequences of characters, decimal numerals, errors and results.
--   Domain    backend/internal/domain: domain.go (Principals), date.go and the dates of
--             family.go (Dates), validation.go (Validation, with proofs in Priced),
--             registration.go (Registration), profile.go (Profile), reading.go (Reading),
--             notification.go (Notification), the ledger's record (ActivityRewards).
--   Family    family.go and sport.go: the card (Entry), Validate (Validate, Media),
--             ApplyFamilyCommand (Command); activity_reward.go (Candidates). The other modules
--             hold proofs: what the guards ensure (Guards), every result with its reason
--             (Outcomes), cards that Validate accepts (Valid), retries (Retry), the stages of a skill
--             (Stages), what earns a reward (Awards).
--   Math      math.go: settings, questions and stars (Settings), the written-out work of a
--             question (Work), Submit and AwardAnswer (Session), NewMathSession (Draws), View (View),
--             Validate (Validate).
--             Proofs: the loop of a multiplication (Rounds), bounds (Stars), every result of Submit
--             (Answers), right answers (Grading, Verdict), answers that are sent again (Repeats),
--             sessions that Validate accepts (Replay, Kept), new sessions (Drawn, Choice, Opened).
--   Store     The tables that these operations use, as lists (Db); learning.go (MathSessions),
--             reading.go (Reading), family.go (FamilyEntries). Proofs: the ledger and its daily
--             budgets (Ledger, Budget, ReadingBudget), retries of a completion (ReadingRetry).
--   Application  backend/internal/application: who may change what (Access, access.go and
--             CheckWriteAccess of store/profile.go), cards (Cards, family.go), lessons (Lessons,
--             learning.go), tasks (Tasks, service.go), the contract with the access service
--             (Notifications, notifications.go), sign-in and confirmations
--             (Sessions, service.go and devices.go), participants and grants (Members,
--             service.go and mcp.go), devices and login (Devices, devices.go and login.go),
--             archives (Backup, BackupLessons; backup.go, family_backup.go, learning_backup.go).
--             Proofs: what edits earn and agents are refused (Earned), who confirms a task
--             (FourEyes), tokens after a sign-in (SignIn) and after a new PIN (SignedOut), what a
--             new PIN needs (Confirmed), the budget in an archive (BackupBudget).
--   Tasks     Tasks and the outbox of notifications: the tables (Tables), CompleteTask and
--             ConfirmTask of store.go (Lifecycle), notifications.go of store (Recipients,
--             Outbox). A call is a value (Steps) that applies to the tables (Calls); histories of
--             calls are a relation. Proofs: what a call does to a row, and the queue that it
--             refines (Steps, Queue, Calls, Events), leases (Claims), when a claim finds something
--             (Due), revocations (Muted, Silence), the life of a task (Completion, Once).
--   Auth      backend/internal/auth/token.go (Token). Proofs: texts joined by dots (Split), what
--             Parse reads of a token (RoundTrip).
--   People    Participants, devices and grants: the tables (Tables), store.go (Members),
--             devices.go (Devices) and mcp.go (Grants) of store; the calls as values (Changes).
--             Proofs: parents and children (Parents), devices that are closed (Closed, Trust) and
--             what a new PIN does to them (PinChange), sessions that are over (Rows).
--   Identity  backend/internal/identity/sessions.go: the registry of signed-in sessions
--             (Sessions) and what a revocation ensures (Revoked, Revocation).
--   Examples  Concrete inputs at which the theorems apply.
--
-- A method that mutates its receiver returns the new value, together with the error where it has
-- one. A transaction takes the tables and returns them with its result; one that fails leaves them
-- as they were, which is what its rollback does. Rows are locked by the statements of the code, so
-- that one transaction at a time is what another participant's request can see. The random
-- identifiers and tokens of the database are arguments; that an identifier of the outbox is used
-- once, which its primary key ensures, is a hypothesis of the theorems that need it.
--
-- Times are nanoseconds since the start of year 1, in UTC; the calendar is the Gregorian one. A
-- float64 is a whole multiple of 2 ^ -1074. Integers that the code adds or multiplies wrap at 64
-- bits. Texts are sequences of characters, so that text that is not UTF-8 is outside the model. A
-- Go map is an association list in which no key is twice. The recursions are on the lists
-- themselves, but for three on fuel: a decimal numeral, and the rounds of a written multiplication,
-- each with the number itself and one more, of which every round takes a tenth; and the options of a
-- new question, which are drawn until four differ. There the fuel is an argument, and is enough
-- where every value below 17 comes within so many draws, which is a hypothesis of the theorem.
--
-- Not modelled: encoding/json but for the two fields that are left out when they are zero; the
-- texts of error messages; SQL errors and the constraints of the schema; listings; the transfer of
-- archives; the remaining use cases, the OpenID sign-in, the access service and the HTTP interface.
-- Encodings, signatures, hashes and random draws of Go's libraries are parameters.
pub mod Application
pub mod Auth
pub mod Base
pub mod Domain
pub mod Examples
pub mod Family
pub mod Identity
pub mod Math
pub mod People
pub mod Store
pub mod Tasks
