-- ===== src/ScratchPads.antt =====
-- The scratch pads, src/modules/scratch-pads: notes of a tenant, each with a link to a Google Sheet if it has one.
pub mod Service
pub mod Apart
pub mod Sheets
pub mod Races
pub mod Rows
pub mod Tests
