-- ===== src/Store.antt =====
-- The family store (backend/internal/store): the tables that the learning and family methods read
-- and write, with the SQL of each method.
pub mod Db
pub mod MathSessions
pub mod Reading
pub mod FamilyEntries
pub mod Ledger
pub mod Budget
pub mod ReadingBudget
pub mod ReadingRetry
