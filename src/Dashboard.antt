-- ===== src/Dashboard.antt =====
-- The dashboard summary, src/modules/monthly-plans: the money of a tenant over all ledgers.
pub mod Service
pub mod Corpus
pub mod Moves
pub mod Tests
