-- ===== src/Adjustments.antt =====
-- The adjustments of card transactions, src/modules/transactions: what a transaction counts for in a billing
-- cycle and in a calendar month, and the service that stores the adjustments.
pub mod Effective
pub mod Service
pub mod Amounts
pub mod Stored
pub mod Tests
