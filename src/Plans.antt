-- ===== src/Plans.antt =====
-- The monthly plans, src/modules/monthly-plans: the split calculator, the periods, and the upsert that
-- writes the plan, the investments and the deposit ledger in one transaction.
pub mod Split
pub mod Period
pub mod Payments
pub mod Service
pub mod Columns
pub mod Upsert
pub mod Solvency
pub mod Ledger
pub mod Stored
pub mod Tests
