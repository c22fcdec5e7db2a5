-- ===== src/Investments.antt =====
-- The ledger of investments, src/modules/investments: what the plans buy and what is sold of it.
pub mod Service
pub mod Balance
pub mod Undo
pub mod Opening
pub mod Tests
