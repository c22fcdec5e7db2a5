-- ===== src/Imports.antt =====
-- The import of card transactions from mail, src/modules/import-jobs.
pub mod Tables
pub mod Lock
pub mod Failures
pub mod Outside
pub mod Folders
pub mod Parse
pub mod Process
pub mod Bank
pub mod Retry
pub mod Rebase
pub mod Runs
pub mod Run
pub mod Chunks
pub mod Rows
pub mod Keeps
pub mod Step
pub mod Drained
pub mod Complete
pub mod Counts
pub mod Endings
pub mod Again
pub mod World
pub mod Exclusion
pub mod Unowned
pub mod Jobs
pub mod Status
pub mod Settled
pub mod DryRun
pub mod Written
pub mod Sample
pub mod Tests
pub mod RunTests
