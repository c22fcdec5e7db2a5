-- ===== src/Baselines.antt =====
-- The baselines of fiscal halves, src/modules/settings.
pub mod FiscalHalf
pub mod Service
pub mod Lock
pub mod Once
pub mod Version
pub mod Tests
