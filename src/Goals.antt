-- ===== src/Goals.antt =====
-- The savings goals, src/modules/goals: what the plans of the tenant have paid into a goal, and what was
-- moved out of it again.
pub mod Service
pub mod Listing
pub mod Break
pub mod Undo
pub mod Rows
pub mod Tests
