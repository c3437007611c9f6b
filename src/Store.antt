-- ===== src/Store.antt =====
-- ledger/store.py and the tables of ledger/schema.py: the ledger, and the write session by which
-- every change is made.
pub mod Tables
pub mod Exec
pub mod Session
pub mod Objects
pub mod Connections
pub mod Artifacts
pub mod Locations
pub mod Append
pub mod Growth
pub mod History
pub mod Methods
pub mod Persist
pub mod Soundness
pub mod Last
pub mod Repeat
pub mod Command
pub mod Transaction
pub mod Block
pub mod Edges
