-- ===== src/Fd.antt =====
-- The ledger of fixed deposits, src/modules/fd-ledger: the packets that a plan contributes, and the
-- breaks that take packets out again, oldest lot first.
pub mod Packet
pub mod Table
pub mod Service
pub mod Sums
pub mod Loop
pub mod Break
pub mod Cover
pub mod Fifo
pub mod Enough
pub mod Undo
pub mod Sync
pub mod Tests
