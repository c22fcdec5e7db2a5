-- ===== src/Settings.antt =====
-- The settings of a tenant, src/modules/settings.
pub mod Tables
pub mod Payments
pub mod Sources
pub mod Slates
pub mod Service
pub mod Update
pub mod Rows
pub mod Stash
pub mod Lists
pub mod Solvency
pub mod Tests
