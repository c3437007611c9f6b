-- ===== src/Store/Edges.antt =====
-- The connections that the methods of ledger/store.py leave behind.
pub mod Still
pub mod Rows
pub mod Writes
pub mod Kept
pub mod Reached
pub mod View
pub mod Asserted
