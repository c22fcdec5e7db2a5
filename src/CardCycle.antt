-- ===== src/CardCycle.antt =====
-- The summary of the billing cycles of cards, src/modules/transactions/services/card-cycle-summary.service.ts.
pub mod Dates
pub mod Tables
pub mod Spend
pub mod Summary
pub mod Window
pub mod Totals
pub mod Tests
